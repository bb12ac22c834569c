-- ===== src/Consensus/Validated.antt =====
-- ValidateDecideMessage of consensus.go, for somebody who takes no part in the consensus.
use bdls.Base.{◌≡◌, ◌<◌, refl, [], ◌∷◌, some, true, ok, >>=-eq-ok, >>-eq-ok, ◌==◌, ==→eq, arith}
use bdls.Errors.{Error}
use bdls.Message.{Bytes, State, Message, SignedProto, protocol_version}
use bdls.Message.Signing.{verify}
use bdls.Consensus.State.{Consensus, Setup}
use bdls.Consensus.Rounds.{round_leader}
use bdls.Consensus.Checks.{
  equal_bytes, bytes_of, is_decide, is_commit, is_participant, signer_of, verify_message,
  verify_signed,
}
use bdls.Consensus.Verify.{decode_signed_message, validate_decide, validate_decide_message}
use bdls.Consensus.Certificates.{Certificate, verify_signed-eq-ok}
use bdls.Consensus.Agreement.{verify_decide-Certificate}

equal_bytes→eq : (a b : Bytes) → equal_bytes a b ≡ true → a ≡ b
equal_bytes→eq [] [] h = refl
equal_bytes→eq [] (b ∷ bs) h = cc
equal_bytes→eq (a ∷ cs) [] h = cc
equal_bytes→eq (a ∷ cs) (b ∷ bs) h =
    let rest : equal_bytes cs bs ≡ true = ground (arith, h) in
    let first : (a == b) ≡ true = ground (arith, h) in
    cc (equal_bytes→eq cs bs rest, ==→eq a b first)

module _ (s : Setup) where
  -- The message behind the bytes, and what has been checked of it.
  pub record Validated (c : Consensus) (bts : Bytes) (target : State) : Type 0 where
    pub signed : SignedProto
    pub content : Message
    pub decoded_as : decode_signed_message s bts ≡ ok signed
    pub version : signed.version ≡ protocol_version
    pub known : is_participant s (signer_of s signed) ≡ true
    pub genuine : verify s.lib signed ≡ true
    pub content_decoded : s.lib.unmarshal_message signed.message ≡ some content
    pub kind : is_decide content.kind ≡ true
    pub same_state : bytes_of content.state ≡ bytes_of target
    pub valid : s.state_validate content.state ≡ true
    pub higher : c.latest_height < content.height
    pub leader : round_leader s content.round ≡ ok (signer_of s signed)
    pub certificate :
        Certificate s is_commit content.height content.round
          (s.state_hash content.state)
          content.proof

  validate_decide-Validated :
      (c : Consensus) (bts : Bytes) (target : State) (signed : SignedProto)
      → decode_signed_message s bts ≡ ok signed
      → validate_decide s c signed target ≡ ok tt
      → Validated c bts target
  unfolding validate_decide verify_message
  validate_decide-Validated c bts target signed d h =
      let (version, h1) = >>-eq-ok (signed.version == protocol_version) Error.message_version _ h in
      let (m, verified, h2) = >>=-eq-ok (verify_signed s signed) _ h1 in
      let (known, genuine, content) = verify_signed-eq-ok s signed verified in
      let (same, h3) =
        >>-eq-ok (equal_bytes (bytes_of m.state) (bytes_of target)) Error.mismatched_target_state _
          h2 in
      let (kind, h4) = >>-eq-ok (is_decide m.kind) Error.message_unknown_message_type _ h3 in
      let (higher, _, valid, leader, certificate) = verify_decide-Certificate s c m signed h4 in
      record {
        signed = signed;
        content = m;
        decoded_as = d;
        version = ==→eq _ _ version;
        known = known;
        genuine = genuine;
        content_decoded = content;
        kind = kind;
        same_state = equal_bytes→eq _ _ same;
        valid = valid;
        higher = higher;
        leader = leader;
        certificate = certificate;
      }

  -- Bytes that `ValidateDecideMessage` accepts for a state decode to a <decide> message of the right
  -- version, signed by a participant who leads its round, for a valid state of the same bytes and a
  -- height above the current one, and at least 2t + 1 participants have committed to its hash at its
  -- height and round.
  pub validate_decide_message-Validated :
      (c : Consensus) (bts : Bytes) (target : State)
      → validate_decide_message s c bts target ≡ ok tt
      → Validated c bts target
  unfolding validate_decide_message
  validate_decide_message-Validated c bts target h =
      let (signed, d, accepted) = >>=-eq-ok (decode_signed_message s bts) _ h in
      validate_decide-Validated c bts target signed d accepted
