-- ===== src/Consensus/Verify.antt =====
-- The checks of consensus.go on incoming messages: the verify*Message methods.
use bdls.Base.{
  ◌+◌, [], Option, none, some, not, ◌||◌, Outcome, ok, err, ◌>>=◌, ◌>>◌, require, ltb, ◌==◌, length,
  is_some, u64,
}
use bdls.Errors.{Error}
use bdls.Message.{Bytes, State, Message, SignedProto, protocol_version}
use bdls.Consensus.State.{Consensus, Setup, current, quorum}
use bdls.Consensus.Rounds.{round_leader}
use bdls.Consensus.Checks.{
  is_round_change, is_commit, is_decide, in_commit, in_lock_release, as_unknown, decoded, collect,
  max_count, equal_bytes, bytes_of, signer_of, verify_signed, verify_message, nil_or_valid, votes,
  not_above, count_proposals,
}

module _ (s : Setup) where
  -- `verifyRoundChangeMessage`.
  unfoldable pub verify_round_change : Consensus → Message → Outcome (Unit {0})
  verify_round_change c m = do
    require (m.height == u64 (c.latest_height + 1)) Error.round_change_height_mismatch
    require (not (ltb m.round (current c).round_number)) Error.round_change_round_lower
    require (nil_or_valid s m.state) Error.round_change_state_validation

  -- The body of the loop of `verifyLockMessage`.
  unfoldable pub lock_proof : Message → SignedProto → Outcome State
  lock_proof m proof = do
    p ← as_unknown Error.lock_proof_unknown_participant (verify_signed s proof)
    require (is_round_change p.kind) Error.lock_proof_type_mismatch
    require (p.height == m.height) Error.lock_proof_height_mismatch
    require (p.round == m.round) Error.lock_proof_round_mismatch
    require (nil_or_valid s p.state) Error.lock_proof_state_validation
    ok p.state

  -- `verifyLockMessage`.
  unfoldable pub verify_lock : Consensus → Message → SignedProto → Outcome (Unit {0})
  verify_lock c m signed = do
    require (m.height == u64 (c.latest_height + 1)) Error.lock_height_mismatch
    require (not (ltb m.round (current c).round_number)) Error.lock_round_lower
    require (is_some m.state) Error.lock_empty_state
    require (s.state_validate m.state) Error.lock_state_validation
    leader ← round_leader s m.round
    require (signer_of s signed == leader) Error.lock_not_signed_by_leader
    rcs ← collect (lock_proof m) (signer_of s) m.proof []
    require (not (ltb (votes s m.state rcs) (quorum s))) Error.lock_proof_insufficient

  -- `verifyLockReleaseMessage`: the embedded <lock> message.
  unfoldable pub verify_lock_release : Consensus → Option SignedProto → Outcome Message
  verify_lock_release c none = do
    require (in_lock_release (current c).stage) Error.lock_release_status
    err Error.message_is_empty
  verify_lock_release c (some signed) = do
    require (in_lock_release (current c).stage) Error.lock_release_status
    lockmsg ← verify_message s (some signed)
    verify_lock c lockmsg signed
    ok lockmsg

  -- The body of the loop of `verifySelectMessage`.
  unfoldable pub select_proof : Message → SignedProto → Outcome State
  select_proof m proof = do
    p ← as_unknown Error.select_proof_unknown_participant (verify_signed s proof)
    require (is_round_change p.kind) Error.select_proof_type_mismatch
    require (p.height == m.height) Error.select_proof_height_mismatch
    require (p.round == m.round) Error.select_proof_round_mismatch
    require (nil_or_valid s p.state) Error.select_proof_state_validation
    require (not_above s m.state p.state) Error.select_proof_not_the_maximal
    ok p.state

  -- `verifySelectMessage`.
  unfoldable pub verify_select : Consensus → Message → SignedProto → Outcome (Unit {0})
  verify_select c m signed = do
    require (m.height == u64 (c.latest_height + 1)) Error.select_height_mismatch
    require (not (ltb m.round (current c).round_number)) Error.select_round_lower
    require (nil_or_valid s m.state) Error.select_state_validation
    leader ← round_leader s m.round
    require (signer_of s signed == leader) Error.select_not_signed_by_leader
    rcs ← collect (select_proof m) (signer_of s) m.proof []
    require (not (ltb (length rcs) (quorum s))) Error.select_proof_insufficient
    let counts = count_proposals s rcs []
    require (is_some m.state || length counts == 0) Error.select_state_mismatch
    require (ltb (max_count 0 counts) (quorum s)) Error.select_proof_exceeded

  -- `verifyCommitMessage`.
  unfoldable pub verify_commit : Consensus → Message → Outcome (Unit {0})
  verify_commit c m = do
    require (in_commit (current c).stage) Error.commit_status
    require (is_some m.state) Error.commit_empty_state
    require (s.state_validate m.state) Error.commit_state_validation
    require (m.height == u64 (c.latest_height + 1)) Error.commit_height_mismatch
    require ((current c).round_number == m.round) Error.commit_round_mismatch
    require (s.state_hash m.state == (current c).locked_state_hash) Error.commit_state_mismatch

  -- The body of the loop of `verifyDecideMessage`.
  unfoldable pub decide_proof : Message → SignedProto → Outcome State
  decide_proof m proof = do
    p ← as_unknown Error.decide_proof_unknown_participant (verify_signed s proof)
    require (is_commit p.kind) Error.decide_proof_type_mismatch
    require (p.height == m.height) Error.decide_proof_height_mismatch
    require (p.round == m.round) Error.decide_proof_round_mismatch
    require (s.state_validate p.state) Error.decide_proof_state_validation
    require (nil_or_valid s p.state) Error.select_proof_state_validation
    ok p.state

  -- `verifyDecideMessage`.
  unfoldable pub verify_decide : Consensus → Message → SignedProto → Outcome (Unit {0})
  verify_decide c m signed = do
    require (is_some m.state) Error.decide_empty_state
    require (s.state_validate m.state) Error.decide_state_validation
    require (ltb c.latest_height m.height) Error.decide_height_lower
    leader ← round_leader s m.round
    require (signer_of s signed == leader) Error.decide_not_signed_by_leader
    commits ← collect (decide_proof m) (signer_of s) m.proof []
    require (not (ltb (votes s m.state commits) (quorum s))) Error.decide_proof_insufficient

  -- `validateDecideMessage`.
  unfoldable pub validate_decide : Consensus → SignedProto → State → Outcome (Unit {0})
  validate_decide c signed target = do
    require (signed.version == protocol_version) Error.message_version
    m ← verify_message s (some signed)
    require (equal_bytes (bytes_of m.state) (bytes_of target)) Error.mismatched_target_state
    require (is_decide m.kind) Error.message_unknown_message_type
    verify_decide c m signed

  -- `DecodeSignedMessage`.
  unfoldable pub decode_signed_message : Bytes → Outcome SignedProto
  decode_signed_message bts = decoded (s.lib.unmarshal_signed bts)

  -- `DecodeMessage`.
  unfoldable pub decode_message : Bytes → Outcome Message
  decode_message bts = decoded (s.lib.unmarshal_message bts)

  -- `ValidateDecideMessage`.
  unfoldable pub validate_decide_message : Consensus → Bytes → State → Outcome (Unit {0})
  validate_decide_message c bts target = do
    signed ← decode_signed_message bts
    validate_decide c signed target
