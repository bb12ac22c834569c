-- ===== src/Consensus/RoundList.antt =====
-- The order of the list of rounds: getRound and switchRound of consensus.go.
use bdls.Base.{
  ℕ, ◌≤◌, ◌<◌, ◌≡◌, refl, sym, ◌∙◌, List, [], ◌∷◌, Bool, true, false, arith, ltb, ltb→lt, All,
  All-map, Bool-cases, inl, inr,
}
use bdls.Round.{Round}
use bdls.Consensus.Rounds.{Search, keep, search_round}

-- The rounds' numbers, given by `n`, rise strictly along the list.
abbrev pub Ascending : (ℕ → ℕ) → List ℕ → Type 0
Ascending n [] = Unit
Ascending n (p ∷ ps) = All (λ q. n p < n q) ps × Ascending n ps

pub Ascending-agree :
    (n k : ℕ → ℕ) (ps : List ℕ) → All (λ p. n p ≡ k p) ps → Ascending n ps → Ascending k ps
Ascending-agree n k [] e a = tt
Ascending-agree n k (p ∷ ps) e a = (rest ps e.1 a.0, Ascending-agree n k ps e.1 a.1)
  where
    rest :
        (qs : List ℕ) → All (λ q. n q ≡ k q) qs → All (λ q. n p < n q) qs → All (λ q. k p < k q) qs
    rest [] _ _ = tt
    rest (q ∷ qs) e' a' = (omega (arith, e.0, e'.0, a'.0), rest qs e'.1 a'.1)

-- What `keep` makes of the list of a search.
keep_cases {κ} :
    (P : List ℕ → Type κ) (purge : Bool) (p : ℕ) (found : Search)
    → P found.refs
    → (purge ≡ false → P (p ∷ found.refs))
    → P (keep purge p found).refs
keep_cases P true p found dropped held = dropped
keep_cases P false p found dropped held = held refl

keep-ref : (purge : Bool) (p : ℕ) (found : Search) → (keep purge p found).ref ≡ found.ref
keep-ref true p found = refl
keep-ref false p found = refl

keep-is_new : (purge : Bool) (p : ℕ) (found : Search) → (keep purge p found).is_new ≡ found.is_new
keep-is_new true p found = refl
keep-is_new false p found = refl

module _ (heap : ℕ → Round) (fresh idx : ℕ) (purge : Bool) where
  abbrev pub search : List ℕ → Search
  search = search_round heap fresh idx purge

  -- One step of the loop: the round is lower than the one that is looked for, higher, or it.
  search_cases {κ} :
      (P : Search → Type κ) (p : ℕ) (ps : List ℕ)
      → ((heap p).round_number < idx → P (keep purge p (search ps)))
      → (idx < (heap p).round_number
          → P (record { refs = fresh ∷ p ∷ ps; ref = fresh; is_new = true }))
      → ((heap p).round_number ≡ idx → P (record { refs = p ∷ ps; ref = p; is_new = false }))
      → P (search (p ∷ ps))
  unfolding search_round
  search_cases P p ps lower higher same = elim (Bool-cases (ltb (heap p).round_number idx)) [
    | inl l ↦ rw l (lower (ltb→lt _ _ l))
    | inr n ↦ rw n (elim (Bool-cases (ltb idx (heap p).round_number)) [
      | inl h ↦ rw h (higher (ltb→lt _ _ h))
      | inr k ↦ rw k (same (ground (arith, n, k)))
    ])
  ]

  pub All-search {κ} : (P : ℕ → Type κ) (ps : List ℕ) → P fresh → All P ps → All P (search ps).refs
  unfolding search_round
  All-search P [] f a = (f, tt)
  All-search P (p ∷ ps) f a =
      search_cases (λ r. All P r.refs) p ps
        (λ _.
          keep_cases (All P) purge p (search ps) (All-search P ps f a.1)
            (λ _. (a.0, All-search P ps f a.1)))
        (λ _. (f, a)) (λ _. a)

  -- If no round was made, the list holds old ones only, and so does the reference.
  pub All-search_old {κ} :
      (P : ℕ → Type κ) (ps : List ℕ)
      → (search ps).is_new ≡ false
      → All P ps
      → All P (search ps).refs × P (search ps).ref
  unfolding search_round
  All-search_old P [] e a = absurd (cc e)
  All-search_old P (p ∷ ps) e a =
      search_cases (λ r. r.is_new ≡ false → All P r.refs × P r.ref) p ps
        (λ _ e'.
          let (rest, hit) = All-search_old P ps (rw (keep-is_new purge p (search ps)) at e') a.1 in
          (
            keep_cases (All P) purge p (search ps) rest (λ _. (a.0, rest)),
            rw (keep-ref purge p (search ps)) hit,
          ))
        (λ _ e'. absurd (cc e')) (λ _ _. (a, a.0)) e

  pub search-fresh : (ps : List ℕ) → (search ps).is_new ≡ true → (search ps).ref ≡ fresh
  unfolding search_round
  search-fresh [] e = refl
  search-fresh (p ∷ ps) e =
      search_cases (λ r. r.is_new ≡ true → r.ref ≡ fresh) p ps
        (λ _ e'.
          keep-ref purge p (search ps)
          ∙ search-fresh ps (rw (keep-is_new purge p (search ps)) at e'))
        (λ _ _. refl) (λ _ e'. absurd (cc e')) e

  module _ (n : ℕ → ℕ) (made : n fresh ≡ idx) where
    -- `n` numbers the rounds of a list as the heap does.
    abbrev pub Agrees : List ℕ → Type 0
    Agrees = All (λ p. (heap p).round_number ≡ n p)

    pub search-hit : (ps : List ℕ) → Agrees ps → n (search ps).ref ≡ idx
    unfolding search_round
    search-hit [] a = made
    search-hit (p ∷ ps) a =
        search_cases (λ r. n r.ref ≡ idx) p ps
          (λ _. rw (keep-ref purge p (search ps)) (search-hit ps a.1)) (λ _. made)
          (λ e. sym a.0 ∙ e)

    pub Ascending-search : (ps : List ℕ) → Agrees ps → Ascending n ps → Ascending n (search ps).refs
    unfolding search_round
    Ascending-search [] a o = (tt, tt)
    Ascending-search (p ∷ ps) a o =
        let rest = Ascending-search ps a.1 o.1 in
        search_cases (λ r. Ascending n r.refs) p ps
          (λ l.
            keep_cases (Ascending n) purge p (search ps) rest
              (λ _. (All-search (λ q. n p < n q) ps (omega (arith, made, a.0)) o.0, rest)))
          (λ h. (
            (
              omega (arith, made, a.0),
              All-map (λ q. n p < n q) _ ps (λ q g. omega (arith, made, a.0)) o.0,
            ),
            o,
          ))
          (λ _. o)

    -- A search that purges leaves no lower round.
    pub purged-search :
        (ps : List ℕ)
        → purge ≡ true
        → Agrees ps
        → Ascending n ps
        → All (λ q. idx ≤ n q) (search ps).refs
    unfolding search_round
    purged-search [] _ a o = (omega (arith, made), tt)
    purged-search (p ∷ ps) t a o =
        search_cases (λ r. All (λ q. idx ≤ n q) r.refs) p ps
          (λ _.
            keep_cases (All (λ q. idx ≤ n q)) purge p (search ps) (purged-search ps t a.1 o.1)
              (λ f. absurd (cc (sym t ∙ f))))
          (λ h. (
            omega (arith, made),
            (omega (arith, a.0), All-map (λ q. n p < n q) _ ps (λ q g. omega (arith, a.0)) o.0),
          ))
          (λ e. (omega (arith, a.0), All-map (λ q. n p < n q) _ ps (λ q g. omega (arith, a.0)) o.0))
