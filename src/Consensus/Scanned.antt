-- ===== src/Consensus/Scanned.antt =====
-- The loop of <roundchange> over the rounds, of consensus.go.
use bdls.Base.{
  ℕ, ◌<◌, ◌≡◌, refl, ◌∙◌, ap, List, [], ◌∷◌, Option, none, some, arith, ltb, ◌==◌, ==→eq, All,
  Outcome, ok, err, panic, Ensures, if_cases,
}
use bdls.Round.{Round, num_round_changes, remove_round_change, find_round_change}
use bdls.Consensus.State.{write}
use bdls.Consensus.RoundList.{Ascending}
use bdls.Consensus.Handlers.{Scan, prepend, drop_message, scan_one, scan_rounds}

-- What the loop over the rounds keeps: numbers, order, and what holds of all references.
pub record Scanned (heap : ℕ → Round) (ps : List ℕ) (r : Scan) : Type 1 where
  pub same_numbers : (q : ℕ) → (r.heap q).round_number ≡ (heap q).round_number
  pub still_all : (P : ℕ → Type 0) → All P ps → All P r.refs
  pub still_ascending : (n : ℕ → ℕ) → Ascending n ps → Ascending n r.refs

prepend-Scanned :
    (heap : ℕ → Round) (p : ℕ) (ps : List ℕ) (o : Outcome Scan)
    → Ensures (Scanned heap ps) o
    → Ensures (Scanned heap (p ∷ ps)) (prepend p o)
prepend-Scanned heap p ps (ok r) h = record {
  same_numbers = h.same_numbers;
  still_all = λ P a. (a.0, h.still_all P a.1);
  still_ascending = λ n a. (h.still_all (λ q. n p < n q) a.0, h.still_ascending n a.1);
}
prepend-Scanned heap p ps (err e) h = tt
prepend-Scanned heap p ps panic h = tt

-- Leaving the first round out, or changing it in the heap.
drop-Scanned :
    (heap : ℕ → Round) (p : ℕ) (ps : List ℕ) (r : Round) (o : Outcome Scan)
    → r.round_number ≡ (heap p).round_number
    → Ensures (Scanned (write heap p r) ps) o
    → Ensures (Scanned heap ps) o
drop-Scanned heap p ps r (ok scan) e h = record {
  same_numbers = λ q. h.same_numbers q ∙ written q;
  still_all = h.still_all;
  still_ascending = h.still_ascending;
}
  where
    written : (q : ℕ) → (write heap p r q).round_number ≡ (heap q).round_number
    written q =
        if_cases (λ (x : Round). x.round_number ≡ (heap q).round_number) (p == q) r (heap q)
          (λ t. e ∙ ap (λ k. (heap k).round_number) (==→eq p q t)) (λ _. refl)
drop-Scanned heap p ps r (err x) e h = tt
drop-Scanned heap p ps r panic e h = tt

shorter-Scanned :
    (heap : ℕ → Round) (p : ℕ) (ps : List ℕ) (o : Outcome Scan)
    → Ensures (Scanned heap ps) o
    → Ensures (Scanned heap (p ∷ ps)) o
shorter-Scanned heap p ps (ok r) h = record {
  same_numbers = h.same_numbers;
  still_all = λ P a. h.still_all P a.1;
  still_ascending = λ n a. h.still_ascending n a.1;
}
shorter-Scanned heap p ps (err e) h = tt
shorter-Scanned heap p ps panic h = tt

remove_round_change-number :
    (r : Round) (idx : ℕ)
    → Ensures (λ q. q.round_number ≡ r.round_number) (remove_round_change r idx)
unfolding remove_round_change
remove_round_change-number r idx = ground arith

module _ (cur round : ℕ) where
  drop_message-Scanned :
      (heap : ℕ → Round) (p : ℕ) (ps : List ℕ) (again : (ℕ → Round) → Outcome Scan)
      (removed : Outcome Round)
      → ((h : ℕ → Round) → Ensures (Scanned h ps) (again h))
      → Ensures (λ r. r.round_number ≡ (heap p).round_number) removed
      → Ensures (Scanned heap (p ∷ ps)) (drop_message heap p again removed)
  unfolding drop_message
  drop_message-Scanned heap p ps again (ok r) good e =
      let rest = drop-Scanned heap p ps r (again (write heap p r)) e (good (write heap p r)) in
      if_cases (Ensures (Scanned heap (p ∷ ps))) (num_round_changes r == 0) _ _
        (λ _. shorter-Scanned heap p ps (again (write heap p r)) rest)
        (λ _. prepend-Scanned heap p ps (again (write heap p r)) rest)
  drop_message-Scanned heap p ps again (err x) good e = tt
  drop_message-Scanned heap p ps again panic good e = tt

  scan_one-Scanned :
      (heap : ℕ → Round) (p : ℕ) (ps : List ℕ) (again : (ℕ → Round) → Outcome Scan) (at : Option ℕ)
      → ((h : ℕ → Round) → Ensures (Scanned h ps) (again h))
      → Ensures (Scanned heap (p ∷ ps)) (scan_one cur round heap p ps again at)
  unfolding scan_one
  scan_one-Scanned heap p ps again none good = prepend-Scanned heap p ps (again heap) (good heap)
  scan_one-Scanned heap p ps again (some idx) good =
      let onward = prepend-Scanned heap p ps (again heap) (good heap) in
      if_cases (Ensures (Scanned heap (p ∷ ps))) (round == cur) _ _ (λ _. onward)
        (λ _.
          if_cases (Ensures (Scanned heap (p ∷ ps))) (ltb round (heap p).round_number) _ _
            (λ _. record {
              same_numbers = λ q. refl;
              still_all = λ P a. a;
              still_ascending = λ n a. a;
            })
            (λ _.
              if_cases (Ensures (Scanned heap (p ∷ ps))) (ltb (heap p).round_number round) _ _
                (λ _.
                  drop_message-Scanned heap p ps again (remove_round_change (heap p) idx) good
                    (remove_round_change-number (heap p) idx))
                (λ _. onward)))

  pub scan_rounds-Scanned :
      (x y : ℕ) (heap : ℕ → Round) (ps : List ℕ)
      → Ensures (Scanned heap ps) (scan_rounds cur round x y heap ps)
  unfolding scan_rounds
  scan_rounds-Scanned x y heap [] = record {
    same_numbers = λ q. refl;
    still_all = λ P a. a;
    still_ascending = λ n a. a;
  }
  scan_rounds-Scanned x y heap (p ∷ ps) =
      scan_one-Scanned heap p ps (λ h. scan_rounds cur round x y h ps)
        (find_round_change (heap p) x y) (λ h. scan_rounds-Scanned x y h ps)
