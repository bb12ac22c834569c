-- ===== src/Consensus/Conflicts.antt =====
-- Two <decide> or two <lock> messages that pass the checks of consensus.go, of whatever participants
-- in whatever states.
use bdls.Base.{
  arith, ℕ, ◌+◌, ◌*◌, ◌<◌, ◌≡◌, ◌≢◌, sym, ◌∙◌, List, [], Bool, true, ok, length, All, All-map,
  Distinct, some,
}
use bdls.Message.{Message, MessageType, SignedProto}
use bdls.Message.Signing.{verify}
use bdls.Consensus.State.{Consensus, Setup, max_faulty}
use bdls.Consensus.Config.{identities}
use bdls.Consensus.Checks.{signer_of, is_participant, is_round_change, is_commit}
use bdls.Consensus.Verify.{verify_lock, verify_decide}
use bdls.Consensus.Certificates.{Vote, Certificate}
use bdls.Consensus.Agreement.{
  certificates_overlap, verify_decide-Certificate, verify_lock-Certificate,
}

-- Two signed messages that give a participant away: both signatures hold, and the messages are of
-- one kind, height and round, for states of different hashes.
pub record DoubleVote (s : Setup) (is_kind : MessageType → Bool) (height round : ℕ) (id : ℕ)
    : Type 0 where
  pub first : SignedProto
  pub second : SignedProto
  pub first_content : Message
  pub second_content : Message
  pub known : is_participant s id ≡ true
  pub first_signed : (signer_of s first ≡ id) × (verify s.lib first ≡ true)
  pub second_signed : (signer_of s second ≡ id) × (verify s.lib second ≡ true)
  pub first_decodes : s.lib.unmarshal_message first.message ≡ some first_content
  pub second_decodes : s.lib.unmarshal_message second.message ≡ some second_content
  pub kinds : (is_kind first_content.kind ≡ true) × (is_kind second_content.kind ≡ true)
  pub heights : (first_content.height ≡ height) × (second_content.height ≡ height)
  pub rounds : (first_content.round ≡ round) × (second_content.round ≡ round)
  pub differ : s.state_hash first_content.state ≢ s.state_hash second_content.state

-- More than t different participants voted twice.
abbrev pub Guilty : Setup → (MessageType → Bool) → ℕ → ℕ → Type 0
Guilty s is_kind height round =
    (ids : List ℕ) × Distinct ids
    × (max_faulty s < length ids)
    × All (DoubleVote s is_kind height round) ids

module _ (s : Setup) (counted : s.num_identities ≡ length (identities s.participants []))
    (three_faulty : s.num_identities ≡ 3 * max_faulty s + 1) where
  votes-DoubleVote :
      (is_kind : MessageType → Bool) (height round h1 h2 : ℕ) (ps1 ps2 : List SignedProto) (id : ℕ)
      → h1 ≢ h2
      → Vote s is_kind height round h1 ps1 id
      → Vote s is_kind height round h2 ps2 id
      → DoubleVote s is_kind height round id
  votes-DoubleVote is_kind height round h1 h2 ps1 ps2 id n v w = record {
    first = v.proof;
    second = w.proof;
    first_content = v.content;
    second_content = w.content;
    known = v.known;
    first_signed = (v.signed_by, v.genuine);
    second_signed = (w.signed_by, w.genuine);
    first_decodes = v.decodes;
    second_decodes = w.decodes;
    kinds = (v.kind, w.kind);
    heights = (v.at_height, w.at_height);
    rounds = (v.at_round, w.at_round);
    differ = λ e. n (sym v.for_state ∙ e ∙ w.for_state);
  }

  certificates-Guilty :
      (is_kind : MessageType → Bool) (height round h1 h2 : ℕ) (ps1 ps2 : List SignedProto)
      → h1 ≢ h2
      → Certificate s is_kind height round h1 ps1
      → Certificate s is_kind height round h2 ps2
      → Guilty s is_kind height round
  certificates-Guilty is_kind height round h1 h2 ps1 ps2 n a b =
      let (ids, distinct, many, both) =
        certificates_overlap s counted is_kind height round h1 h2 ps1 ps2 a b in
      (
        ids,
        distinct,
        omega (arith, many, three_faulty),
        All-map _ (DoubleVote s is_kind height round) ids
            (λ id v. votes-DoubleVote is_kind height round h1 h2 ps1 ps2 id n v.0 v.1) both,
      )

  -- If there are n = 3t + 1 different participants and two of them, in whatever states, accept
  -- <decide> messages of one height and round for states of different hashes, then more than t
  -- different participants have signed <commit> messages for two hashes at that height and round.
  pub verify_decide-Guilty :
      (c1 c2 : Consensus) (m1 m2 : Message) (signed1 signed2 : SignedProto)
      → verify_decide s c1 m1 signed1 ≡ ok tt
      → verify_decide s c2 m2 signed2 ≡ ok tt
      → m2.height ≡ m1.height
      → m2.round ≡ m1.round
      → s.state_hash m1.state ≢ s.state_hash m2.state
      → Guilty s is_commit m1.height m1.round
  verify_decide-Guilty c1 c2 m1 m2 signed1 signed2 a1 a2 height round n =
      let first = (verify_decide-Certificate s c1 m1 signed1 a1).4 in
      let second = (verify_decide-Certificate s c2 m2 signed2 a2).4 in
      certificates-Guilty is_commit m1.height m1.round (s.state_hash m1.state)
        (s.state_hash m2.state) m1.proof m2.proof n first (rw (sym height, sym round) second)

  -- If there are n = 3t + 1 different participants and two of them, in whatever states, accept
  -- <lock> messages of one height and round for states of different hashes, then more than t
  -- different participants have signed <roundchange> messages for two hashes at that height and
  -- round.
  pub verify_lock-Guilty :
      (c1 c2 : Consensus) (m1 m2 : Message) (signed1 signed2 : SignedProto)
      → verify_lock s c1 m1 signed1 ≡ ok tt
      → verify_lock s c2 m2 signed2 ≡ ok tt
      → m2.height ≡ m1.height
      → m2.round ≡ m1.round
      → s.state_hash m1.state ≢ s.state_hash m2.state
      → Guilty s is_round_change m1.height m1.round
  verify_lock-Guilty c1 c2 m1 m2 signed1 signed2 a1 a2 height round n =
      let first = (verify_lock-Certificate s c1 m1 signed1 a1).5 in
      let second = (verify_lock-Certificate s c2 m2 signed2 a2).5 in
      certificates-Guilty is_round_change m1.height m1.round (s.state_hash m1.state)
        (s.state_hash m2.state) m1.proof m2.proof n first (rw (sym height, sym round) second)
