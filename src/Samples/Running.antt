-- ===== src/Samples/Running.antt =====
-- A participant of the group of four that proposes, hears of three others and goes on.
use bdls.Base.{ℕ, ◌≡◌, refl, [], ◌∷◌, some, true, is_ok, is_ok-value_or, value_or, Ensures}
use bdls.Round.{
  rank, new_round, add_round_change, find_round_change, swap_remove, remove_round_change,
  signed_round_changes, round_change_states, add_commit, num_committed, signed_commits,
  insert_by_hash, longest_run, max_of_sorted, get_max_proposed,
}
use bdls.Message.Axis.{of_bytes, to_bytes, join_axes}
use bdls.Message.Signing.{preimage, hash, verify, unsigned, sign}
use bdls.Consensus.Timing.{
  shift_one, cap, scaled, round_change_duration, collect_duration, lock_duration, commit_duration,
  lock_release_duration, time_add,
}
use bdls.Consensus.Rounds.{
  search_round, get_round, switch_round, leader_of, round_leader, height_sync,
}
use bdls.Consensus.Proposals.{
  max_from, maximal, maximal_locked, maximal_unconfirmed, propose, propose_all,
}
use bdls.Consensus.Checks.{collect, bump, max_count, verify_signed, verify_message, count_proposals}
use bdls.Consensus.Verify.{
  verify_round_change, lock_proof, verify_lock, verify_lock_release, select_proof, verify_select,
  verify_commit, decide_proof, verify_decide,
}
use bdls.Consensus.Send.{
  propagate, seal, broadcast, to_leader, send_to, proposal, send_round_change,
  broadcast_round_change, broadcast_lock, broadcast_lock_release, broadcast_select,
  broadcast_decide, broadcast_resync, deliver_commit, send_commit,
}
use bdls.Consensus.Locks.{
  higher, highest_lock, replace_lock, keep_released, release_into, release_locks, lock_release,
}
use bdls.Consensus.Handlers.{
  drop_message, scan_one, scan_rounds, enter_lock, track_max, accept_round_change, on_round_change,
  follow_round, enter_selected, on_select, enter_locked, on_lock, release_lock, on_lock_release,
  decide, add_committed, on_commit, on_decide, on_resync,
}
use bdls.Consensus.Receive.{dispatch, receive, drain_one, drain, receive_message}
use bdls.Consensus.Config.{verify_config, default_hash, identities, blank, init}
use bdls.Consensus.Update.{
  update_round_changing, lock_proposed, select_proposed, on_leader, update_lock, update_commit,
  update_lock_release, tick_in, tick, update,
}
use bdls.Message.{Bytes}
use bdls.Consensus.State.{Consensus, current}
use bdls.Consensus.InOrder.{InOrder}
use bdls.Consensus.Reachable.{
  Reach, here, next, receives, proposes, Follows, receive-Follows, Reach-InOrder,
}
use bdls.Consensus.Votes.{AllKept}
use bdls.Consensus.Votes.Steps.{Reach-Kept}
use bdls.Consensus.Ticking.{Onward, tick-Onward}
use bdls.Samples.Toy.{toy, toy_config, started}

-- A <roundchange> message of a participant for round 0 of height 1.
abbrev wants : ℕ → Bytes
wants who = who ∷ 1 ∷ 1 ∷ 0 ∷ 7 ∷ []

abbrev proposed : Consensus
proposed = propose (toy 2) (started 2) (some (7 ∷ []))

abbrev heard : ℕ → Consensus → Consensus
heard who c = value_or c (receive (toy 2) c (wants who) 5)

abbrev one : Consensus
one = heard 1 proposed

abbrev two : Consensus
two = heard 3 one

abbrev three : Consensus
three = heard 4 two

one_heard : is_ok (receive (toy 2) proposed (wants 1) 5) ≡ true
unfolding new_round add_round_change find_round_change swap_remove remove_round_change
    signed_round_changes round_change_states add_commit num_committed signed_commits insert_by_hash
    longest_run max_of_sorted get_max_proposed of_bytes to_bytes join_axes preimage hash verify
    unsigned sign shift_one cap scaled round_change_duration collect_duration lock_duration
    commit_duration lock_release_duration time_add search_round get_round switch_round leader_of
    round_leader height_sync max_from maximal maximal_locked maximal_unconfirmed propose propose_all
    collect bump max_count verify_signed verify_message count_proposals verify_round_change
    lock_proof verify_lock verify_lock_release select_proof verify_select verify_commit decide_proof
    verify_decide propagate seal broadcast to_leader send_to proposal send_round_change
    broadcast_round_change broadcast_lock broadcast_lock_release broadcast_select broadcast_decide
    broadcast_resync deliver_commit send_commit higher highest_lock replace_lock keep_released
    release_into release_locks lock_release drop_message scan_one scan_rounds enter_lock track_max
    accept_round_change on_round_change follow_round enter_selected on_select enter_locked on_lock
    release_lock on_lock_release decide add_committed on_commit on_decide on_resync dispatch receive
    drain_one drain receive_message verify_config default_hash identities blank init
    update_round_changing lock_proposed select_proposed on_leader update_lock update_commit
    update_lock_release tick_in tick update
one_heard = refl

two_heard : is_ok (receive (toy 2) one (wants 3) 5) ≡ true
unfolding new_round add_round_change find_round_change swap_remove remove_round_change
    signed_round_changes round_change_states add_commit num_committed signed_commits insert_by_hash
    longest_run max_of_sorted get_max_proposed of_bytes to_bytes join_axes preimage hash verify
    unsigned sign shift_one cap scaled round_change_duration collect_duration lock_duration
    commit_duration lock_release_duration time_add search_round get_round switch_round leader_of
    round_leader height_sync max_from maximal maximal_locked maximal_unconfirmed propose propose_all
    collect bump max_count verify_signed verify_message count_proposals verify_round_change
    lock_proof verify_lock verify_lock_release select_proof verify_select verify_commit decide_proof
    verify_decide propagate seal broadcast to_leader send_to proposal send_round_change
    broadcast_round_change broadcast_lock broadcast_lock_release broadcast_select broadcast_decide
    broadcast_resync deliver_commit send_commit higher highest_lock replace_lock keep_released
    release_into release_locks lock_release drop_message scan_one scan_rounds enter_lock track_max
    accept_round_change on_round_change follow_round enter_selected on_select enter_locked on_lock
    release_lock on_lock_release decide add_committed on_commit on_decide on_resync dispatch receive
    drain_one drain receive_message verify_config default_hash identities blank init
    update_round_changing lock_proposed select_proposed on_leader update_lock update_commit
    update_lock_release tick_in tick update
two_heard = refl

three_heard : is_ok (receive (toy 2) two (wants 4) 5) ≡ true
unfolding new_round add_round_change find_round_change swap_remove remove_round_change
    signed_round_changes round_change_states add_commit num_committed signed_commits insert_by_hash
    longest_run max_of_sorted get_max_proposed of_bytes to_bytes join_axes preimage hash verify
    unsigned sign shift_one cap scaled round_change_duration collect_duration lock_duration
    commit_duration lock_release_duration time_add search_round get_round switch_round leader_of
    round_leader height_sync max_from maximal maximal_locked maximal_unconfirmed propose propose_all
    collect bump max_count verify_signed verify_message count_proposals verify_round_change
    lock_proof verify_lock verify_lock_release select_proof verify_select verify_commit decide_proof
    verify_decide propagate seal broadcast to_leader send_to proposal send_round_change
    broadcast_round_change broadcast_lock broadcast_lock_release broadcast_select broadcast_decide
    broadcast_resync deliver_commit send_commit higher highest_lock replace_lock keep_released
    release_into release_locks lock_release drop_message scan_one scan_rounds enter_lock track_max
    accept_round_change on_round_change follow_round enter_selected on_select enter_locked on_lock
    release_lock on_lock_release decide add_committed on_commit on_decide on_resync dispatch receive
    drain_one drain receive_message verify_config default_hash identities blank init
    update_round_changing lock_proposed select_proposed on_leader update_lock update_commit
    update_lock_release tick_in tick update
three_heard = refl

three_stage : rank (current three).stage ≡ 1
unfolding new_round add_round_change find_round_change swap_remove remove_round_change
    signed_round_changes round_change_states add_commit num_committed signed_commits insert_by_hash
    longest_run max_of_sorted get_max_proposed of_bytes to_bytes join_axes preimage hash verify
    unsigned sign shift_one cap scaled round_change_duration collect_duration lock_duration
    commit_duration lock_release_duration time_add search_round get_round switch_round leader_of
    round_leader height_sync max_from maximal maximal_locked maximal_unconfirmed propose propose_all
    collect bump max_count verify_signed verify_message count_proposals verify_round_change
    lock_proof verify_lock verify_lock_release select_proof verify_select verify_commit decide_proof
    verify_decide propagate seal broadcast to_leader send_to proposal send_round_change
    broadcast_round_change broadcast_lock broadcast_lock_release broadcast_select broadcast_decide
    broadcast_resync deliver_commit send_commit higher highest_lock replace_lock keep_released
    release_into release_locks lock_release drop_message scan_one scan_rounds enter_lock track_max
    accept_round_change on_round_change follow_round enter_selected on_select enter_locked on_lock
    release_lock on_lock_release decide add_committed on_commit on_decide on_resync dispatch receive
    drain_one drain receive_message verify_config default_hash identities blank init
    update_round_changing lock_proposed select_proposed on_leader update_lock update_commit
    update_lock_release tick_in tick update
three_stage = refl

lock_entered : Reach (toy 2) (init (toy 2) toy_config) three
lock_entered =
    next
      (next
        (next (next here (proposes (some (7 ∷ [])) refl))
          (receives (wants 1) 5 (is_ok-value_or proposed _ one_heard)))
        (receives (wants 3) 5 (is_ok-value_or one _ two_heard)))
      (receives (wants 4) 5 (is_ok-value_or two _ three_heard))

Reach-InOrder_example : InOrder three
Reach-InOrder_example = Reach-InOrder (toy 2) toy_config lock_entered

two-InOrder : InOrder two
two-InOrder = Reach-InOrder (toy 2) toy_config (
    next
      (next (next here (proposes (some (7 ∷ [])) refl))
        (receives (wants 1) 5 (is_ok-value_or proposed _ one_heard)))
      (receives (wants 3) 5 (is_ok-value_or one _ two_heard)))

receive-Follows_example : Ensures (Follows two) (receive (toy 2) two (wants 4) 5)
receive-Follows_example = receive-Follows (toy 2) two (wants 4) 5 two-InOrder

three-InOrder : InOrder three
three-InOrder = Reach-InOrder (toy 2) toy_config lock_entered

tick-Onward_example : Ensures (Onward (toy 2) three) (tick (toy 2) three 5_000_000_000)
tick-Onward_example = tick-Onward (toy 2) three 5_000_000_000 three-InOrder

Reach-Kept_example : AllKept (toy 2) three
Reach-Kept_example = Reach-Kept (toy 2) toy_config lock_entered
