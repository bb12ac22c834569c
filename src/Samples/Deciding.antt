-- ===== src/Samples/Deciding.antt =====
-- The end of a height, at the leader and at another participant.
use bdls.Base.{
  ℕ, ◌++◌, ◌≡◌, ◌<◌, refl, [], ◌∷◌, some, true, is_ok, is_ok-value_or, value_or, Ensures,
}
use bdls.Base.Assoc.{insert}
use bdls.Message.{Bytes, Message, MessageType, SignedProto}
use bdls.Message.Axis.{of_bytes}
use bdls.Message.Signing.{verify}
use bdls.Round.{Round, Stage, Tuple, new_round, add_commit, num_committed}
use bdls.Consensus.State.{Consensus}
use bdls.Consensus.Timing.{round_change_duration, time_add}
use bdls.Consensus.Checks.{collect, verify_signed}
use bdls.Consensus.Rounds.{
  height_sync, get_round, switch_round, search_round, round_leader, leader_of,
}
use bdls.Consensus.Proposals.{maximal_locked, maximal, maximal_unconfirmed}
use bdls.Consensus.Send.{
  broadcast_round_change, to_all, broadcast_decide, broadcast, seal, proposal, send_round_change,
}
use bdls.Consensus.Verify.{verify_decide, decide_proof, verify_commit}
use bdls.Consensus.Config.{init}
use bdls.Consensus.Handlers.{on_decide, on_commit, add_committed, decide}
use bdls.Consensus.Synced.{Fresh, on_decide-Fresh, Committed, on_commit-Committed}
use bdls.Samples.Toy.{toy, signed_by, by_three, with_proof, started, toy_lib}

abbrev decide_msg : Message
decide_msg = with_proof MessageType.decide 1 0 (by_three 4 1 0)

abbrev decide_signed : SignedProto
decide_signed = signed_by 1 6 1 0

abbrev decide_bytes : Bytes
decide_bytes = toy_lib.marshal_signed decide_signed

decides : is_ok (on_decide (toy 2) (started 2) decide_bytes decide_msg decide_signed 5) ≡ true
unfolding on_decide verify_decide init broadcast_round_change switch_round search_round new_round
    maximal_locked maximal maximal_unconfirmed round_leader leader_of collect decide_proof
    verify_signed verify of_bytes insert
decides = refl

abbrev decided : Consensus
decided =
    value_or (started 2) (on_decide (toy 2) (started 2) decide_bytes decide_msg decide_signed 5)

on_decide-Fresh_example :
    ((started 2).latest_height < 1)
    × Fresh decided 1 0 (some (7 ∷ []))
    × (decided.latest_proof ≡ some decide_signed)
    × (decided.outputs ≡ (started 2).outputs ++ to_all (started 2).peers decide_bytes)
    × (decided.loopback ≡ (started 2).loopback)
    × (decided.rand ≡ (started 2).rand)
    × (decided.rc_timeout ≡ time_add 5 (round_change_duration (started 2).latency 0))
on_decide-Fresh_example =
    on_decide-Fresh (toy 2) (started 2) decide_bytes decide_msg decide_signed 5 decided
      (is_ok-value_or (started 2) _ decides)

-- A commit for the state 7.
abbrev commit_of : ℕ → Tuple
commit_of who = record {
  state_hash = 7;
  message = with_proof MessageType.commit 1 0 [];
  signed = signed_by who 4 1 0;
}

abbrev waiting : Round
waiting = record (new_round 0) {
  stage = Stage.commit;
  locked_state = some (7 ∷ []);
  locked_state_hash = 7;
  commits = commit_of 1 ∷ commit_of 2 ∷ [];
}

-- The leader that has two commits.
abbrev collecting : Consensus
collecting = record (started 1) { heap = λ _. waiting }

on_commit-Committed_example :
    Ensures
      (Committed (toy 1) collecting (commit_of 3).message (commit_of 3).signed 5)
      (on_commit (toy 1) collecting (commit_of 3).message (commit_of 3).signed 5)
on_commit-Committed_example =
    on_commit-Committed (toy 1) collecting (commit_of 3).message (commit_of 3).signed 5

third_decides :
    (value_or collecting
      (on_commit (toy 1) collecting (commit_of 3).message (commit_of 3).signed 5)).latest_height
    ≡ 1
unfolding on_commit verify_commit init broadcast_round_change switch_round search_round new_round
    maximal_locked maximal maximal_unconfirmed round_leader leader_of add_committed add_commit
    num_committed decide height_sync get_round broadcast_decide broadcast seal proposal
    send_round_change
third_decides = refl
