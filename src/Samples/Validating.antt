-- ===== src/Samples/Validating.antt =====
-- A <decide> message with its proofs, checked by somebody outside.
use bdls.Base.{◌≡◌, refl, [], ◌∷◌, Option, none, some, ok, if◌then◌else◌, ◌==◌}
use bdls.Base.Assoc.{insert}
use bdls.Message.{Bytes, Message, MessageType}
use bdls.Message.Axis.{of_bytes}
use bdls.Message.Signing.{verify}
use bdls.Round.{new_round}
use bdls.Consensus.State.{Setup}
use bdls.Consensus.Checks.{collect, verify_signed, verify_message}
use bdls.Consensus.Rounds.{switch_round, search_round, round_leader, leader_of}
use bdls.Consensus.Proposals.{maximal_locked, maximal, maximal_unconfirmed}
use bdls.Consensus.Send.{broadcast_round_change}
use bdls.Consensus.Config.{init}
use bdls.Consensus.Verify.{
  decode_signed_message, validate_decide, validate_decide_message, verify_decide, decide_proof,
}
use bdls.Consensus.Validated.{Validated, validate_decide_message-Validated}
use bdls.Samples.Toy.{toy, toy_lib, by_three, with_proof, started, decode}

-- A coding in which <decide> messages come with the commits of three participants.
abbrev decode_decide : Bytes → Option Message
decode_decide (kind ∷ rest) =
    if kind == 6
    then some (with_proof MessageType.decide 1 0 (by_three 4 1 0))
    else decode (kind ∷ rest)
decode_decide [] = none

abbrev outside : Setup
outside = record (toy 2) { lib = record toy_lib { unmarshal_message = decode_decide } }

abbrev decide_bytes : Bytes
decide_bytes = 1 ∷ 6 ∷ 1 ∷ 0 ∷ 7 ∷ []

accepted : validate_decide_message outside (started 2) decide_bytes (some (7 ∷ [])) ≡ ok tt
unfolding validate_decide_message decode_signed_message validate_decide verify_message verify_decide
    init broadcast_round_change switch_round search_round new_round maximal_locked maximal
    maximal_unconfirmed round_leader leader_of collect decide_proof verify_signed verify of_bytes
    insert
accepted = refl

validate_decide_message-Validated_example :
    Validated outside (started 2) decide_bytes (some (7 ∷ []))
validate_decide_message-Validated_example =
    validate_decide_message-Validated outside (started 2) decide_bytes (some (7 ∷ [])) accepted
