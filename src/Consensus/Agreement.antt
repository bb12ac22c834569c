-- ===== src/Consensus/Agreement.antt =====
-- The checks of <lock> and <decide> messages of consensus.go, and pairs of certificates.
use bdls.Base.{
  ◌≤◌, ℕ, ◌+◌, ◌*◌, ◌<◌, ◌≡◌, refl, sym, ap, ◌∙◌, List, [], ◌∷◌, Bool, true, false, not, inl, inr,
  ◌⊎◌, arith, ok, >>=-eq-ok, >>-eq-ok, require-eq-ok, ltb, ==→eq, ltb→lt, length, All, All-has,
  All-map, has, is_some, Distinct, Bool-cases, u64,
}
use bdls.Base.Assoc.{insert, keys, has-insert, length-keys}
use bdls.Base.Overlap.{Within, common, length-common, Distinct-keep_if}
use bdls.Message.{Message, MessageType, SignedProto}
use bdls.Consensus.State.{quorum, Consensus, Setup, current}
use bdls.Consensus.Checks.{signer_of, is_participant, is_round_change, is_commit}
use bdls.Consensus.Verify.{verify_lock, lock_proof, verify_decide, decide_proof}
use bdls.Consensus.Rounds.{round_leader}
use bdls.Consensus.Config.{identities}
use bdls.Consensus.Certificates.{
  Vote, Certificate, collect-Certificate, lock_proof-Vote, decide_proof-Vote,
}

not-eq-true : (b : Bool) → not b ≡ true → b ≡ false
not-eq-true true h = sym h
not-eq-true false h = refl

module _ (s : Setup) where
  -- An accepted <lock> message is at the next height and no lower round, carries a valid state
  -- that is not nil, is signed by the leader of its round, and its proofs hold a certificate of
  -- <roundchange> messages for its state.
  pub verify_lock-Certificate :
      (c : Consensus) (m : Message) (signed : SignedProto)
      → verify_lock s c m signed ≡ ok tt
      → (m.height ≡ u64 (c.latest_height + 1))
        × (ltb m.round (current c).round_number ≡ false)
        × (is_some m.state ≡ true)
        × (s.state_validate m.state ≡ true)
        × (round_leader s m.round ≡ ok (signer_of s signed))
        × Certificate s is_round_change m.height m.round (s.state_hash m.state) m.proof
  unfolding verify_lock
  verify_lock-Certificate c m signed h =
      let (height, h1) = >>-eq-ok _ _ _ h in
      let (round, h2) = >>-eq-ok _ _ _ h1 in
      let (filled, h3) = >>-eq-ok _ _ _ h2 in
      let (valid, h4) = >>-eq-ok _ _ _ h3 in
      let (leader, found, h5) = >>=-eq-ok _ _ h4 in
      let (by_leader, h6) = >>-eq-ok _ _ _ h5 in
      let (rcs, collected, h7) = >>=-eq-ok _ _ h6 in
      (
        ==→eq _ _ height,
        not-eq-true _ round,
        filled,
        valid,
        found ∙ ap ok (sym (==→eq _ _ by_leader)),
        collect-Certificate s is_round_change m.height m.round (lock_proof s m) m.proof rcs m.state
            (lock_proof-Vote s m m.proof) collected (not-eq-true _ (require-eq-ok _ _ h7)),
      )

  -- An accepted <decide> message is above the current height, carries a valid state that is not
  -- nil, is signed by the leader of its round, and its proofs hold a certificate of <commit>
  -- messages for its state.
  pub verify_decide-Certificate :
      (c : Consensus) (m : Message) (signed : SignedProto)
      → verify_decide s c m signed ≡ ok tt
      → (c.latest_height < m.height)
        × (is_some m.state ≡ true)
        × (s.state_validate m.state ≡ true)
        × (round_leader s m.round ≡ ok (signer_of s signed))
        × Certificate s is_commit m.height m.round (s.state_hash m.state) m.proof
  unfolding verify_decide
  verify_decide-Certificate c m signed h =
      let (filled, h1) = >>-eq-ok _ _ _ h in
      let (valid, h2) = >>-eq-ok _ _ _ h1 in
      let (height, h3) = >>-eq-ok _ _ _ h2 in
      let (leader, found, h4) = >>=-eq-ok _ _ h3 in
      let (by_leader, h5) = >>-eq-ok _ _ _ h4 in
      let (commits, collected, h6) = >>=-eq-ok _ _ h5 in
      (
        ltb→lt _ _ height,
        filled,
        valid,
        found ∙ ap ok (sym (==→eq _ _ by_leader)),
        collect-Certificate s is_commit m.height m.round (decide_proof s m) m.proof commits m.state
            (decide_proof-Vote s m m.proof) collected (not-eq-true _ (require-eq-ok _ _ h6)),
      )

has-identities :
    (a : ℕ) (ps : List ℕ) (acc : List (ℕ × Bool))
    → (has a ps ≡ true) ⊎ (has a (keys acc) ≡ true)
    → has a (keys (identities ps acc)) ≡ true
unfolding identities
has-identities a [] acc (inl h) = cc
has-identities a [] acc (inr h) = h
has-identities a (p ∷ ps) acc h =
    has-identities a ps (insert p true acc) (ground (arith, has-insert a p true acc))

Within-identities :
    (s : Setup) (ids : List ℕ)
    → All (λ id. is_participant s id ≡ true) ids
    → Within ids (keys (identities s.participants []))
Within-identities s ids h = All-map _ _ ids (λ a e. has-identities a s.participants [] (inl e)) h

All-common :
    (P Q : ℕ → Type 0) (xs ys : List ℕ) → All P xs → All Q ys → All (λ a. P a × Q a) (common ys xs)
All-common P Q [] ys p q = tt
All-common P Q (x ∷ xs) ys p q = elim (Bool-cases (has x ys)) [
  | inl old ↦ rw old ((p.0, All-has Q x ys q old), All-common P Q xs ys p.1 q)
  | inr new ↦ rw new (All-common P Q xs ys p.1 q)
]

module _ (s : Setup) (counted : s.num_identities ≡ length (identities s.participants [])) where
  -- Two certificates of one kind at one height and round, of whatever hashes and proofs, overlap:
  -- of n different participants at least 2(2t + 1) - n vote in both.
  pub certificates_overlap :
      (is_kind : MessageType → Bool) (height round h1 h2 : ℕ) (ps1 ps2 : List SignedProto)
      → Certificate s is_kind height round h1 ps1
      → Certificate s is_kind height round h2 ps2
      → (ids : List ℕ) × Distinct ids
        × (2 * quorum s ≤ s.num_identities + length ids)
        × All
            (λ id. Vote s is_kind height round h1 ps1 id × Vote s is_kind height round h2 ps2 id)
            ids
  certificates_overlap is_kind height round h1 h2 ps1 ps2 c1 c2 =
      let us = keys (identities s.participants []) in
      let known = λ (h : ℕ) (ps : List SignedProto) (c : Certificate s is_kind height round h ps).
        Within-identities s c.ids
          (All-map (Vote s is_kind height round h ps) _ c.ids (λ a v. v.known) c.all_votes) in
      let overlap =
        length-common c1.ids c2.ids us c1.distinct c2.distinct (known h1 ps1 c1)
          (known h2 ps2 c2) in
      (
        common c2.ids c1.ids,
        Distinct-keep_if _ c1.ids c1.distinct,
        omega (
          arith,
          overlap,
          c1.enough,
          c2.enough,
          counted,
          length-keys (identities s.participants []),
        ),
        All-common _ _ c1.ids c2.ids c1.all_votes c2.all_votes,
      )
