-- ===== src/Samples/Delays.antt =====
-- A run of an in-process peer of the group of four: two messages sent, one delivered, an update.
use bdls.Base.{ℕ, ◌≡◌, refl, [], ◌∷◌, Option, none, some, true, is_some}
use bdls.Message.{Bytes}
use bdls.Message.Axis.{of_bytes}
use bdls.Message.Signing.{verify}
use bdls.Round.{
  new_round, add_round_change, find_round_change, get_max_proposed, insert_by_hash, sort_by_hash,
}
use bdls.Consensus.Timing.{time_add, round_change_duration, scaled, shift_one}
use bdls.Consensus.Rounds.{search_round, get_round, switch_round, round_leader, leader_of}
use bdls.Consensus.Proposals.{maximal_locked, maximal, maximal_unconfirmed}
use bdls.Consensus.Checks.{verify_signed, verify_message}
use bdls.Consensus.Verify.{verify_round_change}
use bdls.Consensus.Send.{seal, broadcast, proposal, send_round_change, broadcast_round_change}
use bdls.Consensus.Handlers.{
  drop_message, scan_one, scan_rounds, enter_lock, track_max, accept_round_change, on_round_change,
}
use bdls.Consensus.Receive.{dispatch, receive, drain_one, drain, receive_message}
use bdls.Consensus.Config.{init}
use bdls.Consensus.Reachable.{Reach as Reached}
use bdls.IpcPeer.{IpcPeer, new_ipc_peer, send_message, count_message, deliver}
use bdls.IpcPeer.Runs.{Running, fresh, Reach, here, next, sends, runs_delivery, Reach-Reached}
use bdls.IpcPeer.Counts.{Counted}
use bdls.IpcPeer.Counts.Steps.{Reach-Counted}
use bdls.Samples.Toy.{toy, started}

abbrev or_else : IpcPeer → Option IpcPeer → IpcPeer
or_else p none = p
or_else p (some q) = q

is_some-or_else : (p : IpcPeer) (o : Option IpcPeer) → is_some o ≡ true → o ≡ some (or_else p o)
is_some-or_else p none e = absurd (cc e)
is_some-or_else p (some q) e = refl

abbrev wants : ℕ → Bytes
wants who = who ∷ 1 ∷ 1 ∷ 0 ∷ 7 ∷ []

abbrev idle : Running
idle = fresh (started 2) 100

abbrev sent_one : Running
sent_one = record idle { pending = send_message idle.peer (wants 1) 5 1 ∷ [] }

abbrev sent_two : Running
sent_two = record sent_one {
  pending = send_message sent_one.peer (wants 3) 18446744073709551600 2 ∷ sent_one.pending;
}

abbrev reached : IpcPeer
reached = or_else idle.peer (deliver (toy 2) 8 sent_two.peer (wants 1) 105 200)

delivers_first : is_some (deliver (toy 2) 8 sent_two.peer (wants 1) 105 200) ≡ true
unfolding new_ipc_peer send_message count_message deliver time_add new_round add_round_change
    find_round_change get_max_proposed insert_by_hash sort_by_hash round_change_duration scaled
    shift_one search_round get_round switch_round round_leader leader_of maximal_locked maximal
    maximal_unconfirmed verify_signed verify_message verify_round_change seal broadcast proposal
    send_round_change broadcast_round_change drop_message scan_one scan_rounds enter_lock track_max
    accept_round_change on_round_change dispatch receive drain_one drain receive_message init
    of_bytes verify
delivers_first = refl

abbrev arrived : Running
arrived = record {
  peer = reached;
  pending = send_message sent_one.peer (wants 3) 18446744073709551600 2 ∷ [];
  delivered = (wants 1, 105) ∷ [];
}

run : Reach (toy 2) (started 2) 100 ((wants 3, 84) ∷ (wants 1, 105) ∷ []) arrived
unfolding new_ipc_peer send_message time_add
run =
    next (next (next here (sends (wants 1) 5 1 refl)) (sends (wants 3) 18446744073709551600 2 refl))
      (runs_delivery 8 200 reached (wants 1) 105
        (send_message sent_one.peer (wants 3) 18446744073709551600 2 ∷ []) [] 106 refl
        (is_some-or_else idle.peer _ delivers_first) refl)

Reach-Reached_example : Reached (toy 2) (started 2) arrived.peer.consensus
Reach-Reached_example = Reach-Reached (toy 2) run

Reach-Counted_example : Counted ((wants 3, 84) ∷ (wants 1, 105) ∷ []) arrived
Reach-Counted_example = Reach-Counted (toy 2) run
