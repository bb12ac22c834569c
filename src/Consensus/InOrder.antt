-- ===== src/Consensus/InOrder.antt =====
-- The invariant of the list of rounds of consensus.go, and the ways to make or find a round.
use bdls.Base.{
  ℕ, ◌+◌, ◌≤◌, ◌<◌, ◌≡◌, refl, sym, subst, ◌∙◌, ap, List, Bool, true, arith, ◌==◌, ==→eq, eq_self,
  All, All-map, All-map2, Bool-cases, inl, inr,
}
use bdls.Round.{Round, new_round}
use bdls.Consensus.State.{Consensus, write, set_round}
use bdls.Consensus.Rounds.{get_round, switch_round}
use bdls.Consensus.RoundList.{
  Ascending, Ascending-agree, search, All-search, All-search_old, search-fresh, search-hit,
  Ascending-search, purged-search,
}

-- The number of the round that a reference points to.
abbrev pub numbers : Consensus → ℕ → ℕ
numbers c p = (c.heap p).round_number

abbrev pub Allocated : Consensus → Type 0
Allocated c = All (λ p. p < c.next_ref) c.rounds

-- The list of rounds rises strictly, holds allocated rounds only, and none below the current one.
pub record InOrder (c : Consensus) : Type 0 where
  pub ascending : Ascending (numbers c) c.rounds
  pub allocated : Allocated c
  pub current_allocated : c.current_round < c.next_ref
  pub not_below : All (λ p. numbers c c.current_round ≤ numbers c p) c.rounds

-- What `getRound` gives: a state `d` with a round of the number that was asked for.
pub record GotRound (c : Consensus) (idx : ℕ) (purge : Bool) (d : Consensus) (ref : ℕ)
    : Type 0 where
  pub ascending : Ascending (numbers d) d.rounds
  pub allocated : Allocated d
  pub ref_allocated : ref < d.next_ref
  pub hit : numbers d ref ≡ idx
  pub grows : c.next_ref ≤ d.next_ref
  pub same_current : d.current_round ≡ c.current_round
  pub same_height : d.latest_height ≡ c.latest_height
  pub same_numbers : (p : ℕ) → p < c.next_ref → numbers d p ≡ numbers c p
  pub purged : purge ≡ true → All (λ p. idx ≤ numbers d p) d.rounds
  pub bounded :
      (b : ℕ) → b ≤ idx → All (λ p. b ≤ numbers c p) c.rounds → All (λ p. b ≤ numbers d p) d.rounds

module _ (c : Consensus) (idx : ℕ) where
  -- The numbers with a new round at the next free reference.
  abbrev with_new : ℕ → ℕ
  with_new p = (write c.heap c.next_ref (new_round idx) p).round_number

  with_new-fresh : with_new c.next_ref ≡ idx
  unfolding new_round
  with_new-fresh = rw (eq_self c.next_ref, with_new)

  with_new-old : (p : ℕ) → p < c.next_ref → (c.heap p).round_number ≡ with_new p
  with_new-old p h = elim (Bool-cases (c.next_ref == p)) [
    | inl e ↦ absurd (omega (arith, ==→eq _ _ e))
    | inr n ↦ rw (n, with_new)
  ]

  pub get_round-GotRound :
      (purge : Bool)
      → Ascending (numbers c) c.rounds
      → Allocated c
      → GotRound c idx purge (get_round c idx purge).0 (get_round c idx purge).1
  unfolding get_round
  get_round-GotRound purge up inside =
      let agrees =
        All-map (λ p. p < c.next_ref) (λ p. numbers c p ≡ with_new p) c.rounds with_new-old
          inside in
      let found = search c.heap c.next_ref idx purge c.rounds in
      let hit = search-hit c.heap c.next_ref idx purge with_new with_new-fresh c.rounds agrees in
      let rises =
        Ascending-search c.heap c.next_ref idx purge with_new with_new-fresh c.rounds agrees
          (Ascending-agree (numbers c) with_new c.rounds agrees up) in
      let purges = λ (t : purge ≡ true).
        purged-search c.heap c.next_ref idx purge with_new with_new-fresh c.rounds t agrees
          (Ascending-agree (numbers c) with_new c.rounds agrees up) in
      elim (Bool-cases found.is_new) [
        | inl made ↦ rw made (record {
          ascending = rises;
          allocated =
              All-search c.heap c.next_ref idx purge (λ p. p < c.next_ref + 1) c.rounds
                (omega arith) (All-map _ _ c.rounds (λ p h. omega arith) inside);
          ref_allocated = omega (arith, search-fresh c.heap c.next_ref idx purge c.rounds made);
          hit = hit;
          grows = omega arith;
          same_current = refl;
          same_height = refl;
          same_numbers = λ p h. sym (with_new-old p h);
          purged = purges;
          bounded = λ b le all.
              All-search c.heap c.next_ref idx purge (λ p. b ≤ with_new p) c.rounds
                (omega (arith, with_new-fresh))
                (All-map2 _ _ _ c.rounds (λ p h g. omega (arith, with_new-old p h)) inside all);
        })
        | inr old ↦
            let (inside', ref_inside) =
              All-search_old c.heap c.next_ref idx purge (λ p. p < c.next_ref) c.rounds old
                inside in
            let same =
              All-map (λ p. p < c.next_ref) (λ p. with_new p ≡ numbers c p) found.refs
                (λ p h. sym (with_new-old p h)) inside' in
            rw old (record {
              ascending = Ascending-agree with_new (numbers c) found.refs same rises;
              allocated = inside';
              ref_allocated = ref_inside;
              hit = with_new-old found.ref ref_inside ∙ hit;
              grows = omega arith;
              same_current = refl;
              same_height = refl;
              same_numbers = λ p h. refl;
              purged = λ t. All-map2 _ _ _ found.refs (λ p e g. omega arith) same (purges t);
              bounded = λ b le all.
                  (All-search_old c.heap c.next_ref idx purge (λ p. b ≤ numbers c p) c.rounds old
                    all).0;
            })
      ]

-- The parts of the state on which the order of the rounds rests.
pub record Core : Type 0 where
  pub rounds : List ℕ
  pub next_ref : ℕ
  pub current_round : ℕ
  pub latest_height : ℕ
  pub numbering : ℕ → ℕ

abbrev pub core : Consensus → Core
core c = record {
  rounds = c.rounds;
  next_ref = c.next_ref;
  current_round = c.current_round;
  latest_height = c.latest_height;
  numbering = numbers c;
}

pub record SameCore (c d : Core) : Type 0 where
  pub same_rounds : d.rounds ≡ c.rounds
  pub same_next : d.next_ref ≡ c.next_ref
  pub same_current : d.current_round ≡ c.current_round
  pub same_height : d.latest_height ≡ c.latest_height
  pub same_numbers : (p : ℕ) → d.numbering p ≡ c.numbering p

-- Those parts are the same in two states.
abbrev pub Frame : Consensus → Consensus → Type 0
Frame c d = SameCore (core c) (core d)

pub Frame-refl : (c : Consensus) → Frame c c
Frame-refl c = record {
  same_rounds = refl;
  same_next = refl;
  same_current = refl;
  same_height = refl;
  same_numbers = λ p. refl;
}

pub SameCore-trans : {c d e : Core} → SameCore c d → SameCore d e → SameCore c e
SameCore-trans f g = record {
  same_rounds = g.same_rounds ∙ f.same_rounds;
  same_next = g.same_next ∙ f.same_next;
  same_current = g.same_current ∙ f.same_current;
  same_height = g.same_height ∙ f.same_height;
  same_numbers = λ p. g.same_numbers p ∙ f.same_numbers p;
}

-- Assigning to a round what keeps its number changes nothing of them.
pub set_round-Frame :
    (c : Consensus) (p : ℕ) (r : Round) → r.round_number ≡ numbers c p → Frame c (set_round c p r)
set_round-Frame c p r e = record {
  same_rounds = refl;
  same_next = refl;
  same_current = refl;
  same_height = refl;
  same_numbers = λ q. elim (Bool-cases (p == q)) [
    | inl same ↦ rw (same, numbers) (e ∙ ap (numbers c) (==→eq p q same))
    | inr other ↦ rw (other, numbers) refl
  ];
}

pub current-Frame :
    (c d : Consensus) → Frame c d → numbers d d.current_round ≡ numbers c c.current_round
current-Frame c d f = f.same_numbers d.current_round ∙ ap (numbers c) f.same_current

pub InOrder-Frame : (c d : Consensus) → Frame c d → InOrder c → InOrder d
InOrder-Frame c d f i = record {
  ascending = subst (Ascending (numbers d)) (sym f.same_rounds) (
      Ascending-agree (numbers c) (numbers d) c.rounds
        (All-map (λ p. p < c.next_ref) _ c.rounds (λ p h. sym (f.same_numbers p)) i.allocated)
        i.ascending);
  allocated =
      subst (All (λ p. p < d.next_ref)) (sym f.same_rounds)
        (All-map _ _ c.rounds (λ p h. omega (arith, f.same_next)) i.allocated);
  current_allocated = omega (arith, f.same_next, f.same_current, i.current_allocated);
  not_below = subst (All (λ p. numbers d d.current_round ≤ numbers d p)) (sym f.same_rounds) (
      All-map _ _ c.rounds (λ p h. omega (arith, f.same_numbers p, current-Frame c d f))
        i.not_below);
}

-- `switchRound` makes the current round one of the number that is asked for, and drops what is
-- below it.
pub switch_round-InOrder :
    (c : Consensus) (round : ℕ)
    → Ascending (numbers c) c.rounds
    → Allocated c
    → InOrder (switch_round c round)
      × (numbers (switch_round c round) (switch_round c round).current_round ≡ round)
      × ((switch_round c round).latest_height ≡ c.latest_height)
unfolding switch_round
switch_round-InOrder c round up inside =
    let got = get_round-GotRound c round true up inside in
    (
      record {
        ascending = got.ascending;
        allocated = got.allocated;
        current_allocated = got.ref_allocated;
        not_below = All-map _ _ _ (λ p h. omega (arith, got.hit)) (got.purged refl);
      },
      got.hit,
      got.same_height,
    )
