-- ===== src/Consensus/Latest.antt =====
-- The loop of consensus.go over the proofs of a message, in which a later proof of a signer takes the
-- place of an earlier one.
use bdls.Base.{
  ℕ, ◌≡◌, refl, sym, ap, subst, ◌∙◌, List, [], ◌∷◌, Option, none, some, true, false, if◌then◌else◌,
  ◌==◌, ==→eq, eq_self, arith, ◌⊎◌, inl, inr, Bool-cases, Outcome, ok, Outcome-cases, ok-injective,
  has, Distinct, All, In,
}
use mathlib.Core.Option.{some-injective}
use bdls.Base.Assoc.{insert, keys, Entries, has-insert, Distinct-insert}
use bdls.Message.{State, SignedProto}
use bdls.Consensus.Checks.{collect}

module _ (signer : SignedProto → ℕ) where
  abbrev pub own : ℕ → SignedProto → Option SignedProto
  own id p = if signer p == id then some p else none

  abbrev pub later : Option SignedProto → Option SignedProto → Option SignedProto
  later none o = o
  later (some q) o = some q

  -- The last of the proofs that an identity has signed.
  abbrev pub last_by : ℕ → List SignedProto → Option SignedProto
  last_by id [] = none
  last_by id (p ∷ ps) = later (last_by id ps) (own id p)

  own-some : (id : ℕ) (p q : SignedProto) → own id p ≡ some q → (p ≡ q) × (signer p ≡ id)
  own-some id p q h = elim (Bool-cases (signer p == id)) [
    | inl same ↦
        (some-injective _ _ (sym (ap (λ b. if b then some p else none) same) ∙ h), ==→eq _ _ same)
    | inr other ↦ absurd (cc (ap (λ b. if b then some p else none) other, h))
  ]

  later-some :
      (o r : Option SignedProto) (q : SignedProto)
      → later o r ≡ some q
      → (o ≡ some q) ⊎ ((o ≡ none) × (r ≡ some q))
  later-some none r q h = inr (refl, h)
  later-some (some x) r q h = inl h

  pub last_by-In :
      (id : ℕ) (ps : List SignedProto) (q : SignedProto)
      → last_by id ps ≡ some q
      → In q ps × (signer q ≡ id)
  last_by-In id [] q e = absurd (cc e)
  last_by-In id (p ∷ ps) q e = elim (later-some (last_by id ps) (own id p) q e) [
    | inl rest ↦ let (i, same) = last_by-In id ps q rest in (inr i, same)
    | inr (_, here) ↦
        let (first, same) = own-some id p q here in (inl (sym first), ap signer (sym first) ∙ same)
  ]

  module _ (check : SignedProto → Outcome State) where
    -- The state is that of the last proof, or else it was there before.
    abbrev Latest : (ℕ → State → Type 0) → ℕ → State → Option SignedProto → Type 0
    Latest P id st none = P id st
    Latest P id st (some p) = check p ≡ ok st

    Latest-later :
        (P : ℕ → State → Type 0) (id : ℕ) (st : State) (o r : Option SignedProto)
        → Latest (λ i v. Latest P i v r) id st o
        → Latest P id st (later o r)
    Latest-later P id st none r h = h
    Latest-later P id st (some q) r h = h

    Entries-map :
        (P Q : ℕ → State → Type 0) (m : List (ℕ × State))
        → ((id : ℕ) (st : State) → P id st → Q id st)
        → Entries P m
        → Entries Q m
    Entries-map P Q [] f e = tt
    Entries-map P Q ((id, st) ∷ m) f e = (f id st e.0, Entries-map P Q m f e.1)

    Latest-other :
        (P : ℕ → State → Type 0) (p : SignedProto) (id : ℕ) (st : State)
        → (signer p == id) ≡ false
        → P id st
        → Latest P id st (own id p)
    Latest-other P p id st other h =
        subst (Latest P id st) (sym (ap (λ b. if b then some p else none) other)) h

    Latest-own :
        (P : ℕ → State → Type 0) (p : SignedProto) (st : State)
        → check p ≡ ok st
        → Latest P (signer p) st (own (signer p) p)
    Latest-own P p st h =
        subst (Latest P (signer p) st)
          (sym (ap (λ b. if b then some p else none) (eq_self (signer p)))) h

    absent-Latest :
        (P : ℕ → State → Type 0) (p : SignedProto) (m : List (ℕ × State))
        → has (signer p) (keys m) ≡ false
        → Entries P m
        → Entries (λ id st. Latest P id st (own id p)) m
    absent-Latest P p [] n e = tt
    absent-Latest P p ((id, st) ∷ m) n e = (
      Latest-other P p id st (ground (arith, n)) e.0,
      absent-Latest P p m (ground (arith, n)) e.1,
    )

    insert-Latest :
        (P : ℕ → State → Type 0) (p : SignedProto) (st : State) (m : List (ℕ × State))
        → check p ≡ ok st
        → Distinct (keys m)
        → Entries P m
        → Entries (λ id v. Latest P id v (own id p)) (insert (signer p) st m)
    unfolding insert
    insert-Latest P p st [] h d e = (Latest-own P p st h, tt)
    insert-Latest P p st ((id, v) ∷ m) h d e = elim (Bool-cases (signer p == id)) [
      | inl same ↦ rw same (
        Latest-own P p st h,
        absent-Latest P p m (subst (λ k. has k (keys m) ≡ false) (sym (==→eq _ _ same)) d.0) e.1,
      )
      | inr other ↦ rw other (Latest-other P p id v other e.0, insert-Latest P p st m h d.1 e.1)
    ]

    -- Each entry holds the state of the last proof of its signer.
    collect-Latest :
        (P : ℕ → State → Type 0) (ps : List SignedProto) (acc rcs : List (ℕ × State))
        → collect check signer ps acc ≡ ok rcs
        → Distinct (keys acc)
        → Entries P acc
        → Entries (λ id st. Latest P id st (last_by id ps)) rcs
    unfolding collect
    collect-Latest P [] acc rcs h d e = subst (Entries P) (ok-injective h) e
    collect-Latest P (p ∷ ps) acc rcs h d e = elim (Outcome-cases (check p)) [
      | inl (st, q) ↦
          Entries-map (λ id v. Latest (λ i w. Latest P i w (own i p)) id v (last_by id ps))
            (λ id v. Latest P id v (later (last_by id ps) (own id p))) rcs
            (λ id v. Latest-later P id v (last_by id ps) (own id p))
            (collect-Latest (λ i w. Latest P i w (own i p)) ps (insert (signer p) st acc) rcs
              (rw (q, collect) at h) (Distinct-insert (signer p) st acc d)
              (insert-Latest P p st acc q d e))
      | inr (inl (x, q)) ↦ absurd (cc (rw (q, collect) at h))
      | inr (inr q) ↦ absurd (cc (rw (q, collect) at h))
    ]

    known-last :
        (id : ℕ) (st : State) (o : Option SignedProto)
        → Latest (λ _ _. true ≡ false) id st o
        → (p : SignedProto) × (o ≡ some p) × (check p ≡ ok st)
    known-last id st none h = absurd (cc h)
    known-last id st (some p) h = (p, refl, h)

    pub collect-last :
        (ps : List SignedProto) (rcs : List (ℕ × State))
        → collect check signer ps [] ≡ ok rcs
        → Entries (λ id st. (p : SignedProto) × (last_by id ps ≡ some p) × (check p ≡ ok st)) rcs
    collect-last ps rcs h =
        Entries-map (λ id st. Latest (λ _ _. true ≡ false) id st (last_by id ps)) _ rcs
          (λ id st. known-last id st (last_by id ps))
          (collect-Latest (λ _ _. true ≡ false) ps [] rcs h tt tt)

    collect-keeps :
        (id : ℕ) (ps : List SignedProto) (acc rcs : List (ℕ × State))
        → collect check signer ps acc ≡ ok rcs
        → has id (keys acc) ≡ true
        → has id (keys rcs) ≡ true
    unfolding collect
    collect-keeps id [] acc rcs h k = subst (λ m. has id (keys m) ≡ true) (ok-injective h) k
    collect-keeps id (p ∷ ps) acc rcs h k = elim (Outcome-cases (check p)) [
      | inl (st, q) ↦
          collect-keeps id ps (insert (signer p) st acc) rcs (rw (q, collect) at h)
            (ground (arith, has-insert id (signer p) st acc, k))
      | inr (inl (x, q)) ↦ absurd (cc (rw (q, collect) at h))
      | inr (inr q) ↦ absurd (cc (rw (q, collect) at h))
    ]

    -- Every proof passes, and its signer has an entry.
    pub collect-All :
        (ps : List SignedProto) (acc rcs : List (ℕ × State))
        → collect check signer ps acc ≡ ok rcs
        → All (λ p. ((st : State) × (check p ≡ ok st)) × (has (signer p) (keys rcs) ≡ true)) ps
    unfolding collect
    collect-All [] acc rcs h = tt
    collect-All (p ∷ ps) acc rcs h = elim (Outcome-cases (check p)) [
      | inl (st, q) ↦
          let next = rw (q, collect) at h in
          (
            (
              (st, q),
              collect-keeps (signer p) ps (insert (signer p) st acc) rcs next
                  (ground (arith, has-insert (signer p) (signer p) st acc, eq_self (signer p))),
            ),
            collect-All ps (insert (signer p) st acc) rcs next,
          )
      | inr (inl (x, q)) ↦ absurd (cc (rw (q, collect) at h))
      | inr (inr q) ↦ absurd (cc (rw (q, collect) at h))
    ]
