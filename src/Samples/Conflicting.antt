-- ===== src/Samples/Conflicting.antt =====
-- Three participants that vote for two states, and a message that stops a participant.
use bdls.Consensus.State.{Setup}
use bdls.Base.{ℕ, ◌-◌, ◌≡◌, refl, List, [], ◌∷◌, some, ok, panic, true, arith, length, word}
use bdls.Message.{Bytes, Message, MessageType, SignedProto}
use bdls.Base.Assoc.{insert}
use bdls.Message.Axis.{of_bytes}
use bdls.Message.Signing.{verify}
use bdls.Round.{new_round}
use bdls.Consensus.Rounds.{switch_round, search_round, round_leader, leader_of}
use bdls.Consensus.Proposals.{maximal_locked, maximal, maximal_unconfirmed}
use bdls.Consensus.Send.{broadcast_round_change}
use bdls.Consensus.Config.{identities, init}
use bdls.Consensus.Checks.{
  is_commit, is_round_change, collect, verify_signed, count_proposals, bump, max_count,
}
use bdls.Consensus.Verify.{
  verify_lock, verify_decide, verify_select, lock_proof, select_proof, decide_proof,
}
use bdls.Consensus.Receive.{receive}
use bdls.Consensus.Conflicts.{Guilty, verify_decide-Guilty, verify_lock-Guilty}
use bdls.Consensus.Selection.{Selection, verify_select-Selection}
use bdls.Consensus.Crash.{receive-panics}
use bdls.Samples.Toy.{toy, signed_by, with_proof, started, toy_lib}

-- A message of kind `tag` by `who` at height 1 and round 0 for the state `st`.
abbrev vote : ℕ → ℕ → Bytes → SignedProto
vote tag who st = record (signed_by who tag 1 0) { message = tag ∷ 1 ∷ 0 ∷ st }

abbrev three_for : ℕ → Bytes → List SignedProto
three_for tag st = vote tag 1 st ∷ vote tag 2 st ∷ vote tag 3 st ∷ []

abbrev claim_for : MessageType → ℕ → ℕ → Message
claim_for kind tag n = record (with_proof kind 1 0 (three_for tag (n ∷ []))) {
  state = some (n ∷ []);
}

counted : (toy 2).num_identities ≡ length (identities (toy 2).participants [])
unfolding identities insert
counted = refl

decide_seven :
    verify_decide (toy 2) (started 2) (claim_for MessageType.decide 4 7) (signed_by 1 6 1 0) ≡ ok tt
unfolding verify_decide decide_proof init broadcast_round_change switch_round search_round new_round
    maximal_locked maximal maximal_unconfirmed round_leader leader_of collect verify_signed verify
    of_bytes insert
decide_seven = refl

decide_nine :
    verify_decide (toy 2) (started 3) (claim_for MessageType.decide 4 9) (signed_by 1 6 1 0) ≡ ok tt
unfolding verify_decide decide_proof init broadcast_round_change switch_round search_round new_round
    maximal_locked maximal maximal_unconfirmed round_leader leader_of collect verify_signed verify
    of_bytes insert
decide_nine = refl

verify_decide-Guilty_example : Guilty (toy 2) is_commit 1 0
verify_decide-Guilty_example =
    verify_decide-Guilty (toy 2) counted refl (started 2) (started 3)
      (claim_for MessageType.decide 4 7) (claim_for MessageType.decide 4 9) (signed_by 1 6 1 0)
      (signed_by 1 6 1 0) decide_seven decide_nine refl refl (λ e. omega arith)

lock_seven :
    verify_lock (toy 2) (started 2) (claim_for MessageType.lock 1 7) (signed_by 1 2 1 0) ≡ ok tt
unfolding verify_lock lock_proof init broadcast_round_change switch_round search_round new_round
    maximal_locked maximal maximal_unconfirmed round_leader leader_of collect verify_signed verify
    of_bytes insert
lock_seven = refl

lock_nine :
    verify_lock (toy 2) (started 3) (claim_for MessageType.lock 1 9) (signed_by 1 2 1 0) ≡ ok tt
unfolding verify_lock lock_proof init broadcast_round_change switch_round search_round new_round
    maximal_locked maximal maximal_unconfirmed round_leader leader_of collect verify_signed verify
    of_bytes insert
lock_nine = refl

verify_lock-Guilty_example : Guilty (toy 2) is_round_change 1 0
verify_lock-Guilty_example =
    verify_lock-Guilty (toy 2) counted refl (started 2) (started 3) (claim_for MessageType.lock 1 7)
      (claim_for MessageType.lock 1 9) (signed_by 1 2 1 0) (signed_by 1 2 1 0) lock_seven lock_nine
      refl refl (λ e. omega arith)

-- Two ask for the state 7, one for none.
abbrev select_msg : Message
select_msg =
    with_proof MessageType.select 1 0 (vote 1 1 (7 ∷ []) ∷ vote 1 2 (7 ∷ []) ∷ vote 1 3 [] ∷ [])

select_accepted : verify_select (toy 2) (started 2) select_msg (signed_by 1 3 1 0) ≡ ok tt
unfolding verify_select select_proof count_proposals bump max_count init broadcast_round_change
    switch_round search_round new_round maximal_locked maximal maximal_unconfirmed round_leader
    leader_of collect verify_signed verify of_bytes insert
select_accepted = refl

verify_select-Selection_example : Selection (toy 2) select_msg
verify_select-Selection_example =
    (verify_select-Selection (toy 2) (started 2) select_msg (signed_by 1 3 1 0) select_accepted).4

-- Participant 3 commits to the last uint64 as a round.
abbrev poison : SignedProto
poison = record (signed_by 3 4 1 0) { message = 4 ∷ 1 ∷ (word - 1) ∷ 7 ∷ [] }

abbrev poison_bytes : Bytes
poison_bytes = toy_lib.marshal_signed poison

abbrev poison_content : Message
poison_content = record (with_proof MessageType.commit 1 (word - 1) []) { state = some (7 ∷ []) }

genuine : verify toy_lib poison ≡ true
unfolding verify of_bytes
genuine = refl

receive-panics_example : receive (toy 2) (started 2) poison_bytes 5 ≡ panic
receive-panics_example =
    receive-panics (toy 2) (started 2) poison_bytes 5 poison poison_content refl (omega arith) refl
      refl refl genuine refl refl refl (omega arith) (λ e. omega arith)

-- A group of six, of which 2t + 1 is 3: two halves, in which nobody votes twice.
abbrev six : Setup
six = record (toy 2) { participants = 1 ∷ 2 ∷ 3 ∷ 4 ∷ 5 ∷ 6 ∷ []; num_identities = 6 }

abbrev half_for : MessageType → ℕ → ℕ → ℕ → ℕ → Message
half_for kind n a b c =
    record (with_proof kind 1 0 (vote 4 a (n ∷ []) ∷ vote 4 b (n ∷ []) ∷ vote 4 c (n ∷ []) ∷ [])) {
      state = some (n ∷ []);
    }

first_half :
    verify_decide six (started 2) (half_for MessageType.decide 7 1 2 3) (signed_by 1 6 1 0) ≡ ok tt
unfolding verify_decide decide_proof init broadcast_round_change switch_round search_round new_round
    maximal_locked maximal maximal_unconfirmed round_leader leader_of collect verify_signed verify
    of_bytes insert
first_half = refl

second_half :
    verify_decide six (started 3) (half_for MessageType.decide 9 4 5 6) (signed_by 1 6 1 0) ≡ ok tt
unfolding verify_decide decide_proof init broadcast_round_change switch_round search_round new_round
    maximal_locked maximal maximal_unconfirmed round_leader leader_of collect verify_signed verify
    of_bytes insert
second_half = refl
