-- ===== src/Samples/Accepted.antt =====
-- Certificates and agreement at the group of four.
use bdls.Base.{◌≡◌, refl, ok}
use bdls.Base.Assoc.{insert}
use bdls.Message.{Message, MessageType}
use bdls.Message.Signing.{verify}
use bdls.Message.Axis.{of_bytes}
use bdls.Round.{new_round}
use bdls.Consensus.Checks.{collect, verify_signed, is_round_change, is_commit}
use bdls.Consensus.Rounds.{round_leader, leader_of, search_round, switch_round}
use bdls.Consensus.Proposals.{maximal_locked, maximal_unconfirmed, maximal}
use bdls.Consensus.Send.{broadcast_round_change}
use bdls.Consensus.Verify.{verify_lock, lock_proof, verify_decide, decide_proof}
use bdls.Consensus.Config.{init}
use bdls.Consensus.Certificates.{Certificate}
use bdls.Consensus.Agreement.{verify_lock-Certificate, verify_decide-Certificate}
use bdls.Samples.Toy.{toy, signed_by, by_three, with_proof, started}

abbrev lock_msg : Message
lock_msg = with_proof MessageType.lock 1 0 (by_three 1 1 0)

lock_accepted : verify_lock (toy 2) (started 2) lock_msg (signed_by 1 2 1 0) ≡ ok tt
unfolding verify_lock init broadcast_round_change switch_round search_round new_round maximal_locked
    maximal maximal_unconfirmed round_leader leader_of collect lock_proof verify_signed verify
    of_bytes insert
lock_accepted = refl

verify_lock-Certificate_example : Certificate (toy 2) is_round_change 1 0 7 (by_three 1 1 0)
verify_lock-Certificate_example =
    (verify_lock-Certificate (toy 2) (started 2) lock_msg (signed_by 1 2 1 0) lock_accepted).5

abbrev decide_msg : Message
decide_msg = with_proof MessageType.decide 1 0 (by_three 4 1 0)

decide_accepted : verify_decide (toy 2) (started 2) decide_msg (signed_by 1 6 1 0) ≡ ok tt
unfolding verify_decide init broadcast_round_change switch_round search_round new_round
    maximal_locked maximal maximal_unconfirmed round_leader leader_of collect decide_proof
    verify_signed verify of_bytes insert
decide_accepted = refl

verify_decide-Certificate_example : Certificate (toy 2) is_commit 1 0 7 (by_three 4 1 0)
verify_decide-Certificate_example =
    (verify_decide-Certificate (toy 2) (started 2) decide_msg (signed_by 1 6 1 0) decide_accepted).4
