-- ===== src/Round/Proposed.antt =====
-- The count of GetMaxProposed, consensus.go.
use bdls.Base.{
  ℕ, suc, ◌+◌, ◌≤◌, ◌<◌, ◌≡◌, ◌≢◌, refl, sym, ap, subst, ◌∙◌, List, [], ◌∷◌, ◌⊎◌, inl, inr, arith,
  ltb, ◌==◌, ==→eq, eq_self, if◌then◌else◌, In, Bool-cases,
}
use bdls.Base.{none}
use bdls.Message.{State}
use bdls.Round.{
  Tuple, Round, hash_count, sort_by_hash, longest_run, max_of_sorted, get_max_proposed,
}
use bdls.Round.Sorted.{From, Sorted, SortOf, sort_by_hash-SortOf}

-- No tuple of a higher hash counts.
hash_count-From : (h g : ℕ) (ts : List Tuple) → h < g → From g ts → hash_count h ts ≡ 0
hash_count-From h g [] lt f = refl
hash_count-From h g (t ∷ ts) lt f = ground (arith, hash_count-From h g ts lt f.1)

In-hash : (g : ℕ) (t : Tuple) (ts : List Tuple) → From g ts → In t ts → g ≤ t.state_hash
In-hash g t [] f i = absurd i
In-hash g t (u ∷ us) f (inl e) = omega (arith, f.0, ap (λ (v : Tuple). v.state_hash) e)
In-hash g t (u ∷ us) f (inr i) = In-hash g t us f.1 i

count_head :
    (h : ℕ) (t : Tuple) (ts : List Tuple)
    → t.state_hash ≡ h
    → hash_count h (t ∷ ts) ≡ suc (hash_count t.state_hash ts)
count_head h t ts e =
    subst (λ k. hash_count k (t ∷ ts) ≡ suc (hash_count t.state_hash ts)) e
      (rw (eq_self t.state_hash) refl)

-- Where the winner of the loop comes from, if `prev` has been seen `cur` times before `ts`.
data Winner (max_state : Tuple) (max_count cur : ℕ) (prev : Tuple) (ts : List Tuple) (best : Tuple)
    (n : ℕ) : Type 0 where
  stays : best ≡ max_state → n ≡ max_count → Winner max_state max_count cur prev ts best n
  current :
      best.state_hash ≡ prev.state_hash
      → In best (prev ∷ ts)
      → n ≡ cur + hash_count prev.state_hash ts
      → Winner max_state max_count cur prev ts best n
  later :
      prev.state_hash < best.state_hash
      → In best ts
      → n ≡ hash_count best.state_hash ts
      → Winner max_state max_count cur prev ts best n

-- The loop's result: no count is higher, and it is the winner's.
record Longest (max_state : Tuple) (max_count cur : ℕ) (prev : Tuple) (ts : List Tuple)
    (best : Tuple) (n : ℕ) : Type 0 where
  above_max : max_count ≤ n
  above_current : cur + hash_count prev.state_hash ts ≤ n
  above_later : (h : ℕ) → h ≢ prev.state_hash → hash_count h ts ≤ n
  winner : Winner max_state max_count cur prev ts best n

longest_run-end :
    (max_state : Tuple) (max_count cur : ℕ) (prev : Tuple)
    → let (best, n) = longest_run max_state max_count cur prev [] in
      Longest max_state max_count cur prev [] best n
unfolding longest_run
longest_run-end max_state max_count cur prev = elim (Bool-cases (ltb max_count cur)) [
  | inl more ↦ rw more (record {
    above_max = ground (arith, more);
    above_current = omega arith;
    above_later = λ h n. omega arith;
    winner = current refl (inl refl) (omega arith);
  })
  | inr less ↦ rw less (record {
    above_max = omega arith;
    above_current = ground (arith, less);
    above_later = λ h n. omega arith;
    winner = stays refl refl;
  })
]

-- A further tuple of the same hash.
Longest-same :
    (max_state : Tuple) (max_count cur : ℕ) (prev t : Tuple) (ts : List Tuple) (best : Tuple)
    (n : ℕ)
    → t.state_hash ≡ prev.state_hash
    → Longest max_state max_count (suc cur) t ts best n
    → Longest max_state max_count cur prev (t ∷ ts) best n
Longest-same max_state max_count cur prev t ts best n e l = record {
  above_max = l.above_max;
  above_current = ground (arith, l.above_current, e);
  above_later = λ h d. ground (arith, l.above_later h (λ f. d (f ∙ e)), e, d);
  winner = elim l.winner [
    | stays a b ↦ stays a b
    | current a i b ↦ current (a ∙ e) (inr i) (ground (arith, b, e))
    | later a i b ↦ later (omega (arith, a, e)) (inr i) (ground (arith, a, b, e))
  ];
}

-- A tuple of a higher hash.
Longest-other :
    (max_state : Tuple) (max_count cur : ℕ) (prev t : Tuple) (ts : List Tuple) (best : Tuple)
    (n : ℕ)
    → prev.state_hash < t.state_hash
    → From t.state_hash ts
    → (let improved = ltb max_count cur in
        Longest
          (if improved then prev else max_state)
          (if improved then cur else max_count)
          1
          t
          ts
          best
          n)
    → Longest max_state max_count cur prev (t ∷ ts) best n
Longest-other max_state max_count cur prev t ts best n lt f l =
    let none_left : hash_count prev.state_hash (t ∷ ts) ≡ 0 =
      ground (arith, hash_count-From prev.state_hash t.state_hash ts lt f) in
    record {
      above_max = ground (arith, l.above_max);
      above_current = ground (arith, l.above_max, none_left);
      above_later = λ h d. later_count h d;
      winner = elim l.winner [
        | stays a b ↦ elim (Bool-cases (ltb max_count cur)) [
          | inl more ↦ first_run (rw more at a) (rw more at b)
          | inr less ↦ stays (rw less at a) (rw less at b)
        ]
        | current a i b ↦ later (omega (arith, a, lt)) i (ground (arith, a, b))
        | later a i b ↦ later (omega (arith, a, lt)) (inr i) (ground (arith, a, b))
      ];
    }
  where
    later_count : (h : ℕ) → h ≢ prev.state_hash → hash_count h (t ∷ ts) ≤ n
    later_count h d = elim (Bool-cases (t.state_hash == h)) [
      | inl same ↦ omega (arith, l.above_current, count_head h t ts (==→eq _ _ same))
      | inr other ↦ rw other (l.above_later h (λ e. absurd (ground (arith, other, e))))
    ]

    first_run : best ≡ prev → n ≡ cur → Winner max_state max_count cur prev (t ∷ ts) best n
    first_run a b = current (ap (λ (v : Tuple). v.state_hash) a) (inl a) (
        omega (arith, b, hash_count-From prev.state_hash t.state_hash (t ∷ ts) lt (omega arith, f)))

longest_run-Longest :
    (max_state : Tuple) (max_count cur : ℕ) (prev : Tuple) (ts : List Tuple)
    → Sorted (prev ∷ ts)
    → let (best, n) = longest_run max_state max_count cur prev ts in
      Longest max_state max_count cur prev ts best n
unfolding longest_run
longest_run-Longest max_state max_count cur prev [] s = longest_run-end max_state max_count cur prev
longest_run-Longest max_state max_count cur prev (t ∷ ts) s =
    elim (Bool-cases (t.state_hash == prev.state_hash)) [
      | inl same ↦
          rw (same, longest_run)
            (Longest-same max_state max_count cur prev t ts _ _ (==→eq _ _ same)
              (longest_run-Longest max_state max_count (suc cur) t ts s.1))
      | inr other ↦
          rw (other, longest_run)
            (Longest-other max_state max_count cur prev t ts _ _ (ground (arith, other, s.0)) s.1.0
              (longest_run-Longest (if ltb max_count cur then prev else max_state)
                (if ltb max_count cur then cur else max_count) 1 t ts s.1))
    ]

-- The result of `GetMaxProposed`: `st` is the state of one of the tuples, `n` counts the tuples of
-- its hash, and no hash has more, unless there are none; the tuples left behind are the same ones.
pub record MostProposed (ts : List Tuple) (left : List Tuple) (st : State) (n : ℕ) : Type 0 where
  same_counts : (h : ℕ) → hash_count h left ≡ hash_count h ts
  same_members : (t : Tuple) → In t left → In t ts
  most : (h : ℕ) → hash_count h ts ≤ n
  proposed :
      ((ts ≡ []) × (st ≡ none) × (n ≡ 0))
      ⊎ ((t : Tuple) × In t ts × (t.message.state ≡ st) × (hash_count t.state_hash ts ≡ n))

-- The winner of a sorted list has its whole count there.
Longest-Winner :
    (t : Tuple) (ts : List Tuple) (best : Tuple) (n : ℕ)
    → From t.state_hash ts
    → Longest t 1 1 t ts best n
    → In best (t ∷ ts)
      × (hash_count best.state_hash (t ∷ ts) ≡ n)
      × ((h : ℕ) → hash_count h (t ∷ ts) ≤ n)
Longest-Winner t ts best n f l =
    let most : (h : ℕ) → hash_count h (t ∷ ts) ≤ n = λ h. elim (Bool-cases (t.state_hash == h)) [
      | inl same ↦ omega (arith, l.above_current, count_head h t ts (==→eq _ _ same))
      | inr other ↦ rw other (l.above_later h (λ e. absurd (ground (arith, other, e))))
    ] in
    elim l.winner [
      | stays a b ↦ (
        inl a,
        omega (
          arith,
          b,
          l.above_current,
          count_head best.state_hash t ts (ap (λ (v : Tuple). v.state_hash) (sym a)),
        ),
        most,
      )
      | current a i b ↦ (i, omega (arith, b, count_head best.state_hash t ts (sym a)), most)
      | later a i b ↦ (inr i, ground (arith, a, b), most)
    ]

no_counts : (ts : List Tuple) → ((h : ℕ) → 0 ≡ hash_count h ts) → ts ≡ []
no_counts [] f = refl
no_counts (t ∷ ts) f = absurd (omega (arith, f t.state_hash, count_head t.state_hash t ts refl))

max_of_sorted-MostProposed :
    (r : Round) (us : List Tuple)
    → SortOf r.round_changes us
    → let (left, st, n) = max_of_sorted r us in MostProposed r.round_changes left.round_changes st n
unfolding max_of_sorted
max_of_sorted-MostProposed r [] s = record {
  same_counts = λ h. refl;
  same_members = λ t i. i;
  most = λ h. omega (arith, s.counts h);
  proposed = inl (no_counts r.round_changes s.counts, refl, refl);
}
max_of_sorted-MostProposed r (t ∷ ts) s =
    let (best, n) = longest_run t 1 1 t ts in
    let (among, count, most) =
      Longest-Winner t ts best n s.sorted.0 (longest_run-Longest t 1 1 t ts s.sorted) in
    record {
      same_counts = s.counts;
      same_members = s.members;
      most = λ h. omega (arith, s.counts h, most h);
      proposed =
          inr (best, s.members best among, refl, omega (arith, s.counts best.state_hash, count));
    }

-- `GetMaxProposed` gives the state of one of the <roundchange> messages of the round, and how many of
-- them have its hash: no hash has more. The round is left with messages that it had, as many for each
-- hash.
-- In a round without messages the state is nil and the count 0. A nil state counts like any other:
-- where no state has more messages than nil, the result may be nil.
pub get_max_proposed-MostProposed :
    (r : Round)
    → let (left, st, n) = get_max_proposed r in MostProposed r.round_changes left.round_changes st n
unfolding get_max_proposed
get_max_proposed-MostProposed r =
    max_of_sorted-MostProposed r (sort_by_hash r.round_changes)
      (sort_by_hash-SortOf r.round_changes)
