-- ===== src/Errors.antt =====
-- errors.go, and the two errors that reach the callers from elsewhere: `pub_key` (message.go) and
-- `unmarshal`, which stands for whatever error the protobuf decoder returns.
pub data Error : Type 0 where
  config_epoch : Error
  config_state_nil : Error
  config_state_compare : Error
  config_state_validate : Error
  config_private_key : Error
  config_participants : Error
  config_pub_key_to_coordinate : Error
  message_version : Error
  message_validator : Error
  message_is_empty : Error
  message_unknown_message_type : Error
  message_signature : Error
  message_unknown_participant : Error
  round_change_height_mismatch : Error
  round_change_round_lower : Error
  round_change_state_validation : Error
  lock_empty_state : Error
  lock_state_validation : Error
  lock_height_mismatch : Error
  lock_round_lower : Error
  lock_not_signed_by_leader : Error
  lock_proof_unknown_participant : Error
  lock_proof_type_mismatch : Error
  lock_proof_height_mismatch : Error
  lock_proof_round_mismatch : Error
  lock_proof_state_validation : Error
  lock_proof_insufficient : Error
  select_state_validation : Error
  select_height_mismatch : Error
  select_round_lower : Error
  select_not_signed_by_leader : Error
  select_state_mismatch : Error
  select_proof_unknown_participant : Error
  select_proof_type_mismatch : Error
  select_proof_height_mismatch : Error
  select_proof_round_mismatch : Error
  select_proof_state_validation : Error
  select_proof_not_the_maximal : Error
  select_proof_insufficient : Error
  select_proof_exceeded : Error
  decide_height_lower : Error
  decide_empty_state : Error
  decide_state_validation : Error
  decide_not_signed_by_leader : Error
  decide_proof_unknown_participant : Error
  decide_proof_type_mismatch : Error
  decide_proof_height_mismatch : Error
  decide_proof_round_mismatch : Error
  decide_proof_state_validation : Error
  decide_proof_insufficient : Error
  lock_release_status : Error
  commit_empty_state : Error
  commit_state_mismatch : Error
  commit_state_validation : Error
  commit_status : Error
  commit_height_mismatch : Error
  commit_round_mismatch : Error
  mismatched_target_state : Error
  pub_key : Error
  unmarshal : Error
