-- ===== src/Consensus/Crash.antt =====
-- roundLeader on <commit> messages of consensus.go, in front of all other checks.
use bdls.Base.{
  ℕ, ◌-◌, ◌%◌, ◌≤◌, ◌<◌, ◌≡◌, ◌≢◌, refl, none, some, true, arith, panic, length, word, sign_bit,
  ◌==◌,
}
use bdls.Message.{Bytes, Message, MessageType, SignedProto, protocol_version}
use bdls.Message.Signing.{verify}
use bdls.Consensus.State.{Consensus, Setup}
use bdls.Consensus.Checks.{signer_of, is_participant, verify_message, verify_signed}
use bdls.Consensus.Leaders.{round_leader-panics}
use bdls.Consensus.Handlers.{on_commit}
use bdls.Consensus.Receive.{receive, accepts, dispatch}

-- Without a fixed leader, and with some participant: whatever the state, a <commit> message of the
-- right version that a participant has signed, of a round from 2 ^ 63
-- on whose negative counterpart is no multiple of the count of participants, makes receiveMessage
-- panic, unless a message validator of the user refuses it.
pub receive-panics :
    (s : Setup) (c : Consensus) (bts : Bytes) (now : ℕ) (signed : SignedProto) (m : Message)
    → s.fixed_leader ≡ none
    → 0 < length s.participants
    → s.lib.unmarshal_signed bts ≡ some signed
    → signed.version ≡ protocol_version
    → is_participant s (signer_of s signed) ≡ true
    → verify s.lib signed ≡ true
    → s.lib.unmarshal_message signed.message ≡ some m
    → accepts s c m signed ≡ true
    → m.kind ≡ MessageType.commit
    → sign_bit ≤ m.round
    → (word - m.round) % length s.participants ≢ 0
    → receive s c bts now ≡ panic
unfolding receive verify_message verify_signed dispatch on_commit
receive-panics s c bts now signed m free some_participant decodes version known genuine content
      accepted commit high n =
    let same : (signed.version == protocol_version) ≡ true = ground (arith, version) in
    rw
      (
        decodes,
        same,
        known,
        genuine,
        content,
        accepted,
        commit,
        round_leader-panics s free some_participant m.round high n,
      )
      refl
