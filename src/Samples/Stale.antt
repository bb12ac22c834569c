-- ===== src/Samples/Stale.antt =====
-- The leader of the group of four, which has counted three equal proposals, when one of their signers
-- goes on to the next round.
use bdls.Base.{ℕ, ◌++◌, ◌≢◌, ap, ◌∙◌, ok, arith, ◌≡◌, refl, [], ◌∷◌, value_or, err, length}
use bdls.Errors.{Error}
use bdls.Message.{Bytes, Message}
use bdls.Message.Axis.{of_bytes}
use bdls.Message.Signing.{verify, sign}
use bdls.Round.{
  Stage, new_round, add_round_change, find_round_change, swap_remove, remove_round_change,
  signed_round_changes, insert_by_hash, sort_by_hash, longest_run, max_of_sorted, get_max_proposed,
}
use bdls.Base.Assoc.{insert}
use bdls.Consensus.State.{Consensus, current}
use bdls.Consensus.Timing.{time_add, collect_duration, scaled, shift_one}
use bdls.Consensus.Rounds.{search_round, get_round, switch_round, round_leader, leader_of}
use bdls.Consensus.Proposals.{maximal_locked, maximal, maximal_unconfirmed}
use bdls.Consensus.Checks.{collect, verify_signed, verify_message}
use bdls.Consensus.Verify.{verify_round_change, verify_lock, lock_proof}
use bdls.Consensus.Send.{
  seal, broadcast, proposal, send_round_change, broadcast_round_change, broadcast_lock,
}
use bdls.Consensus.Handlers.{
  drop_message, scan_one, scan_rounds, enter_lock, track_max, accept_round_change, on_round_change,
}
use bdls.Consensus.Receive.{dispatch, receive}
use bdls.Consensus.Config.{init}
use bdls.Consensus.Update.{lock_proposed, on_leader, update_lock, tick_in, tick}
use bdls.Consensus.Stale.{lock_message, with_lock, tick-refused}
use bdls.Samples.Toy.{toy, toy_lib, started, signed_by}

-- A <roundchange> message of a participant for a round of height 1.
abbrev asks : ℕ → ℕ → Bytes
asks who round = who ∷ 1 ∷ 1 ∷ round ∷ 7 ∷ []

abbrev heard : ℕ → ℕ → Consensus → Consensus
heard who round c = value_or c (receive (toy 1) c (asks who round) 5)

abbrev counted : Consensus
counted = heard 4 0 (heard 3 0 (heard 2 0 (started 1)))

abbrev left_behind : Consensus
left_behind = heard 4 1 counted

-- The <lock> message that it sends at the next tick.
abbrev sent : Message
sent = lock_message (toy 1) (with_lock (toy 1) left_behind)

-- The count is still that of three, two proofs are sent, and the others refuse them.
refused :
    ((current left_behind).stage ≡ Stage.lock)
    × (left_behind.lock_timeout ≡ 600_000_005)
    × (round_leader (toy 1) 0 ≡ ok 1)
    × ((current left_behind).round_number ≡ 0)
    × ((current left_behind).max_proposed_count ≡ 3)
    × (length (current left_behind).round_changes ≡ 2)
    × (verify_lock (toy 2) (started 2) sent (signed_by 1 2 1 0) ≡ err Error.lock_proof_insufficient)
unfolding new_round add_round_change find_round_change swap_remove remove_round_change
    signed_round_changes insert_by_hash sort_by_hash longest_run max_of_sorted get_max_proposed
    of_bytes verify insert search_round get_round switch_round round_leader leader_of maximal_locked
    maximal maximal_unconfirmed collect verify_signed verify_message verify_round_change verify_lock
    lock_proof seal broadcast proposal send_round_change broadcast_round_change broadcast_lock
    drop_message scan_one scan_rounds enter_lock track_max accept_round_change on_round_change
    dispatch receive init lock_proposed on_leader update_lock tick_in tick time_add collect_duration
    scaled shift_one
refused = (refl, refl, refl, refl, refl, refl, refl)

tick-refused_example :
    (tick (toy 1) left_behind 6 ≡ ok (lock_proposed (toy 1) left_behind 6))
    × ((current (lock_proposed (toy 1) left_behind 6)).stage ≡ Stage.commit)
    × ((lock_proposed (toy 1) left_behind 6).loopback
        ≡ left_behind.loopback
          ++ toy_lib.marshal_signed (sign toy_lib left_behind.rand sent (toy 1).private_key) ∷ [])
    × (verify_lock
          (record (toy 1) { identity = 2; private_key = (toy 2).private_key })
          (started 2)
          sent
          (signed_by 1 2 1 0)
        ≢ ok tt)
tick-refused_example =
    tick-refused (toy 1) left_behind 6 2 (toy 2).private_key (started 2) (signed_by 1 2 1 0)
      refused.0 (ground (arith, refused.1)) (ap (round_leader (toy 1)) refused.3 ∙ refused.2)
      (ground (arith, refused.4)) (ground (arith, refused.5))
