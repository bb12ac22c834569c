-- ===== src/Consensus/Convinced.antt =====
-- The end of a height in consensus.go, from the <commit> messages at the leader to the <decide>
-- message at the other participants.
use bdls.Base.{
  ℕ, ◌+◌, ◌≤◌, ◌<◌, ◌≡◌, ◌≢◌, refl, ap, sym, subst, ◌∙◌, ◌⊎◌, inl, inr, List, [], ◌∷◌, map, none,
  some, is_some, Bool, true, false, not, any_of, if_cases, ◌==◌, eq_self, arith, ltb, lt→ltb, All,
  All-map, count_if, ok, u64,
}
use bdls.Message.{Bytes, State, Message, MessageType, SignedProto}
use bdls.Message.Signing.{PrivateKey, public_key, unsigned, sign}
use bdls.Round.{Round, Tuple, same_signer, add_commit, num_committed, signed_commits}
use bdls.Consensus.State.{Consensus, Setup, current, quorum, set_round}
use bdls.Consensus.Rounds.{round_leader}
use bdls.Consensus.Checks.{
  collect, signer_of, votes, verify_signed, is_commit, nil_or_valid, is_participant,
}
use bdls.Consensus.Send.{next_message, broadcast, seal, broadcast_decide}
use bdls.Consensus.Verify.{verify_commit, verify_decide, decide_proof}
use bdls.Consensus.Config.{Config, init}
use bdls.Consensus.Reachable.{Reach}
use bdls.Consensus.Votes.{Genuine, Kept, add_commit-Kept}
use bdls.Consensus.Votes.Scanning.{Authentic, recorded-Genuine}
use bdls.Consensus.Votes.Steps.{Reach-Kept}
use bdls.Consensus.Collected.{Read, view, Sound}
use bdls.Consensus.Collected.Handling.Committing.{verify_commit-Fits, add_commit-Sound}
use bdls.Consensus.Collected.Runs.{Reach-Collected}
use bdls.Consensus.Tally.{Fixed, AllFixed, OneKey, signers-Distinct, collect-votes}

module _ (s : Setup) where
  -- The <decide> message that the leader makes of its current round.
  abbrev pub decide_message : Consensus → Message
  decide_message c = record (next_message c MessageType.decide) {
    state = (current c).locked_state;
    proof = signed_commits (current c);
  }

  valid-nil_or_valid : (st : State) → s.state_validate st ≡ true → nil_or_valid s st ≡ true
  valid-nil_or_valid none h = refl
  valid-nil_or_valid (some b) h = h

  -- A recorded commit of the height of the message passes as a proof of it.
  decide_proof-passes :
      (m : Message) (number : ℕ) (t : Tuple)
      → m.round ≡ number
      → Genuine s is_commit number t
      → t.message.height ≡ m.height
      → s.state_validate t.message.state ≡ true
      → decide_proof s m t.signed ≡ ok t.message.state
  unfolding decide_proof verify_signed
  decide_proof-passes m number t at g height valid =
      let e : (t.message.height == m.height) ≡ true = ground (arith, height) in
      let f : (t.message.round == m.round) ≡ true = ground (arith, at, g.at_round) in
      rw
        (
          g.known,
          g.signed_by,
          g.decodes,
          g.kind,
          e,
          f,
          valid,
          valid-nil_or_valid t.message.state valid,
        )
        refl

  count-hashed :
      (number h : ℕ) (ts : List Tuple)
      → All (Genuine s is_commit number) ts
      → count_if (λ (t : Tuple). s.state_hash t.message.state == h) ts
        ≡ count_if (λ (t : Tuple). t.state_hash == h) ts
  count-hashed number h [] a = refl
  count-hashed number h (t ∷ ts) a = ground (arith, a.0.hashed, count-hashed number h ts a.1)

  passes-All :
      (m : Message) (number : ℕ) (ts : List Tuple)
      → m.round ≡ number
      → All (Genuine s is_commit number) ts
      → All (λ (t : Tuple). t.message.height ≡ m.height) ts
      → All (λ (t : Tuple). s.state_validate t.message.state ≡ true) ts
      → All (λ (t : Tuple). decide_proof s m t.signed ≡ ok t.message.state) ts
  passes-All m number [] at g h v = tt
  passes-All m number (t ∷ ts) at g h v =
      (decide_proof-passes m number t at g.0 h.0 v.0, passes-All m number ts at g.1 h.1 v.1)

  no_votes_yet : (ts : List Tuple) → All (λ (t : Tuple). false ≡ false) ts
  no_votes_yet [] = tt
  no_votes_yet (t ∷ ts) = (refl, no_votes_yet ts)

  known-All :
      (number : ℕ) (ts : List Tuple)
      → All (Genuine s is_commit number) ts
      → All (λ (t : Tuple). is_participant s (signer_of s t.signed) ≡ true) ts
  known-All number [] g = tt
  known-All number (t ∷ ts) g = (g.0.known, known-All number ts g.1)

  -- Unmarshal fills two arrays of 32 bytes.
  abbrev pub Axes : Type 0
  Axes =
      (bts : Bytes) (sp : SignedProto)
      → s.lib.unmarshal_signed bts ≡ some sp
      → Fixed (public_key sp)

  fixed-All : Axes → (ts : List Tuple) → All (λ (t : Tuple). Read s t.signed) ts → AllFixed ts
  fixed-All axes ts h =
      All-map (λ (t : Tuple). Read s t.signed) (λ (t : Tuple). Fixed (public_key t.signed)) ts
        (λ t (bts, e). axes bts t.signed e) h

  -- A message made of the commits of a round passes the check.
  verify_decide-passes :
      (c : Consensus) (m : Message) (signed : SignedProto) (r : Round)
      → OneKey s
      → Axes
      → m.state ≡ r.locked_state
      → m.proof ≡ map (λ (t : Tuple). t.signed) r.commits
      → m.round ≡ r.round_number
      → is_some m.state ≡ true
      → s.state_validate m.state ≡ true
      → c.latest_height < m.height
      → round_leader s m.round ≡ ok (signer_of s signed)
      → Kept s r
      → Sound s m.height (view r)
      → r.locked_state_hash ≡ s.state_hash m.state
      → quorum s ≤ num_committed r
      → verify_decide s c m signed ≡ ok tt
  unfolding verify_decide num_committed
  verify_decide-passes c m signed r one axes st proof at filled valid higher leads k sound hash
        enough =
      let ts = r.commits in
      let passing = passes-All m r.round_number ts at k.3 sound.of_height sound.valid in
      let (rcs, e, count) =
        collect-votes s (decide_proof s m) m.state ts [] passing
          (signers-Distinct s one ts (fixed-All axes ts sound.read)
            (known-All r.round_number ts k.3) k.2)
          (no_votes_yet ts) in
      let collected : collect (decide_proof s m) (signer_of s) m.proof [] ≡ ok rcs =
        ap (λ ps. collect (decide_proof s m) (signer_of s) ps []) proof ∙ e in
      let same = count-hashed r.round_number (s.state_hash m.state) ts k.3 in
      let hits = ap (λ (h : ℕ). count_if (λ (t : Tuple). t.state_hash == h) ts) hash in
      let reached : not (ltb (votes s m.state rcs) (quorum s)) ≡ true =
        ground (arith, count, same, hits, enough) in
      rw
        (
          filled,
          valid,
          lt→ltb c.latest_height m.height higher,
          leads,
          eq_self (signer_of s signed),
          collected,
          reached,
        )
        refl

  -- What is locked is what the commit is for.
  locked-committed :
      (st locked : State) (hash : ℕ)
      → ((b : State) → s.state_hash b ≡ s.state_hash st → b ≡ st)
      → s.state_hash st ≢ 0
      → s.state_hash st ≡ hash
      → (hash ≡ s.state_hash locked) ⊎ ((locked ≡ none) × (hash ≡ 0))
      → st ≡ locked
  locked-committed st locked hash inj nonzero e (inl h) = sym (inj locked (sym h ∙ sym e))
  locked-committed st locked hash inj nonzero e (inr (_, h)) = absurd (nonzero (e ∙ h))

  -- The state of the leader behind a commit.
  abbrev pub committed : Consensus → Message → SignedProto → Consensus
  committed c m signed =
      set_round c c.current_round (add_commit s.state_hash (current c) signed m).0

  add_commit-fields :
      (r : Round) (signed : SignedProto) (m : Message)
      → let q = (add_commit s.state_hash r signed m).0 in
        (q.locked_state ≡ r.locked_state)
        × (q.locked_state_hash ≡ r.locked_state_hash)
        × (q.round_number ≡ r.round_number)
  unfolding add_commit
  add_commit-fields r signed m =
      if_cases
        (λ (q : Round × Bool).
          (q.0.locked_state ≡ r.locked_state)
          × (q.0.locked_state_hash ≡ r.locked_state_hash)
          × (q.0.round_number ≡ r.round_number))
        (any_of (same_signer signed.x signed.y) r.commits) _ _ (λ _. (refl, refl, refl))
        (λ _. (refl, refl, refl))

  current-committed :
      (c : Consensus) (m : Message) (signed : SignedProto)
      → current (committed c m signed) ≡ (add_commit s.state_hash (current c) signed m).0
  current-committed c m signed = rw (eq_self c.current_round) refl

  decide_message-proof :
      (d : Consensus) → (decide_message d).proof ≡ map (λ (t : Tuple). t.signed) (current d).commits
  unfolding signed_commits
  decide_message-proof d = refl

  broadcast_decide-signer :
      (d : Consensus)
      → s.pub_key_to_identity s.private_key.public_key ≡ s.identity
      → signer_of s (broadcast_decide s d).1 ≡ s.identity
  unfolding broadcast_decide broadcast seal sign unsigned
  broadcast_decide-signer d own = own

  broadcast_decide-message :
      (d : Consensus) → (broadcast_decide s d).1.message ≡ s.lib.marshal_message (decide_message d)
  unfolding broadcast_decide broadcast seal sign unsigned
  broadcast_decide-message d = refl

  -- If, among the keys of 32 bytes for each axis, the identity of a participant is of one only, as
  -- the default one is, Unmarshal fills in such keys, no other state has the hash of the state that
  -- is committed, and that hash is not 0: when the leader, in any state that its runs lead to, has
  -- read and checked a <commit> message and then holds 2t + 1 commits of its locked state, what it
  -- sends is the coding of a <decide> message, and every participant, whoever it is and whatever it
  -- has done, that has not reached the height accepts that message once it is decoded.
  pub decide-convinces :
      (config : Config) (c : Consensus) (bts : Bytes) (m : Message) (signed : SignedProto)
      (identity : ℕ) (key : PrivateKey) (other : Consensus)
      → OneKey s
      → Axes
      → ((b : State) → s.state_hash b ≡ s.state_hash m.state → b ≡ m.state)
      → s.state_hash m.state ≢ 0
      → s.pub_key_to_identity s.private_key.public_key ≡ s.identity
      → Reach s (init s config) c
      → s.lib.unmarshal_signed bts ≡ some signed
      → Authentic s m signed
      → is_commit m.kind ≡ true
      → round_leader s m.round ≡ ok s.identity
      → verify_commit s c m ≡ ok tt
      → quorum s ≤ num_committed (current (committed c m signed))
      → other.latest_height < u64 (c.latest_height + 1)
      → ((broadcast_decide s (committed c m signed)).1.message
          ≡ s.lib.marshal_message (decide_message (committed c m signed)))
        × (verify_decide
              (record s { identity = identity; private_key = key })
              other
              (decide_message (committed c m signed))
              (broadcast_decide s (committed c m signed)).1
            ≡ ok tt)
  unfolding verify_decide decide_proof verify_signed round_leader
  decide-convinces config c bts m signed identity key other one axes inj nonzero own reach read
        authentic kind leads checked enough higher =
      let d = committed c m signed in
      let r = (add_commit s.state_hash (current c) signed m).0 in
      let fits = verify_commit-Fits s c m checked in
      let collected = Reach-Collected s config reach in
      let kept = Reach-Kept s config reach c.current_round in
      let here = sym (current-committed c m signed) in
      let (same_state, same_hash, same_round) = add_commit-fields (current c) signed m in
      let state : m.state ≡ (current d).locked_state =
        locked-committed m.state (current c).locked_state (current c).locked_state_hash inj nonzero
          fits.for_locked collected.0.hashed
        ∙ sym same_state
        ∙ ap (λ (q : Round). q.locked_state) here in
      let round : (current d).round_number ≡ m.round =
        ap (λ (q : Round). q.round_number) (sym here) ∙ same_round ∙ fits.at_round in
      let new =
        recorded-Genuine s is_commit (current c).round_number m signed authentic kind
          (sym fits.at_round) in
      (
        broadcast_decide-message d,
        verify_decide-passes other (decide_message d) (broadcast_decide s d).1 (current d) one axes
            refl (decide_message-proof d) refl
            (ap (λ (st : State). is_some st) (sym state) ∙ fits.not_nil)
            (ap s.state_validate (sym state) ∙ fits.valid) higher
            (ap (round_leader s) round ∙ leads ∙ ap ok (sym (broadcast_decide-signer d own)))
            (subst (Kept s) here (add_commit-Kept s (current c) signed m kept new))
            (subst (λ (q : Round). Sound s (u64 (c.latest_height + 1)) (view q)) here
              (add_commit-Sound s (u64 (c.latest_height + 1)) (current c) m signed fits.at_height
                fits.valid (bts, read) collected.0))
            (ap (λ (q : Round). q.locked_state_hash) (sym here)
              ∙ same_hash
              ∙ sym fits.for_locked
              ∙ ap s.state_hash state)
            enough,
      )
