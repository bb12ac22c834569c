-- ===== src/Round/Sorted.antt =====
-- The sort by hash of GetMaxProposed, consensus.go.
use bdls.Base.{
  ℕ, ◌≤◌, ◌≡◌, refl, List, [], ◌∷◌, inl, inr, if_cases, count_if, Bool, arith, ltb, All, All-map,
  In, Bool-cases,
}
use bdls.Round.{Tuple, hash_count, insert_by_hash, sort_by_hash}

abbrev pub From : ℕ → List Tuple → Type 0
From h = All (λ t. h ≤ t.state_hash)

abbrev pub Sorted : List Tuple → Type 0
Sorted [] = Unit
Sorted (t ∷ ts) = From t.state_hash ts × Sorted ts

-- A list in order of hashes with the tuples of another one.
pub record SortOf (ts us : List Tuple) : Type 0 where
  pub counts : (h : ℕ) → hash_count h us ≡ hash_count h ts
  pub members : (t : Tuple) → In t us → In t ts
  pub sorted : Sorted us

insert_by_hash-From :
    (h : ℕ) (t : Tuple) (us : List Tuple)
    → h ≤ t.state_hash
    → From h us
    → From h (insert_by_hash t us)
unfolding insert_by_hash
insert_by_hash-From h t [] a b = (a, tt)
insert_by_hash-From h t (u ∷ us) a b = ground (arith, insert_by_hash-From h t us a b.1)

insert_by_hash-Sorted : (t : Tuple) (us : List Tuple) → Sorted us → Sorted (insert_by_hash t us)
unfolding insert_by_hash
insert_by_hash-Sorted t [] s = (tt, tt)
insert_by_hash-Sorted t (u ∷ us) s = elim (Bool-cases (ltb u.state_hash t.state_hash)) [
  | inl lower ↦ rw lower (
    insert_by_hash-From u.state_hash t us (ground (arith, lower)) s.0,
    insert_by_hash-Sorted t us s.1,
  )
  | inr above ↦
      let first : t.state_hash ≤ u.state_hash = ground (arith, above) in
      rw above ((first, All-map _ _ us (λ v h. omega arith) s.0), s)
]

insert_by_hash-count :
    (h : ℕ) (t : Tuple) (us : List Tuple)
    → hash_count h (insert_by_hash t us) ≡ hash_count h (t ∷ us)
unfolding insert_by_hash
insert_by_hash-count h t [] = refl
insert_by_hash-count h t (u ∷ us) = ground (arith, insert_by_hash-count h t us)

In-insert_by_hash : (v t : Tuple) (us : List Tuple) → In v (insert_by_hash t us) → In v (t ∷ us)
unfolding insert_by_hash
In-insert_by_hash v t [] i = i
In-insert_by_hash v t (u ∷ us) i = elim (Bool-cases (ltb u.state_hash t.state_hash)) [
  | inl lower ↦ elim (rw lower at i) [
    | inl e ↦ inr (inl e)
    | inr j ↦ elim (In-insert_by_hash v t us j) [ inl e ↦ inl e | inr k ↦ inr (inr k) ]
  ]
  | inr above ↦ (rw above at i)
]

pub sort_by_hash-SortOf : (ts : List Tuple) → SortOf ts (sort_by_hash ts)
unfolding sort_by_hash
sort_by_hash-SortOf [] = record { counts = λ h. refl; members = λ t i. i; sorted = tt }
sort_by_hash-SortOf (t ∷ ts) =
    let rest = sort_by_hash-SortOf ts in
    record {
      counts = λ h. ground (arith, insert_by_hash-count h t (sort_by_hash ts), rest.counts h);
      members = λ v i. elim (In-insert_by_hash v t (sort_by_hash ts) i) [
        | inl e ↦ inl e
        | inr j ↦ inr (rest.members v j)
      ];
      sorted = insert_by_hash-Sorted t (sort_by_hash ts) rest.sorted;
    }

insert_by_hash-All {κ} :
    (P : Tuple → Type κ) (t : Tuple) (us : List Tuple)
    → P t
    → All P us
    → All P (insert_by_hash t us)
unfolding insert_by_hash
insert_by_hash-All P t [] a b = (a, tt)
insert_by_hash-All P t (u ∷ us) a b =
    if_cases (All P) (ltb u.state_hash t.state_hash) _ _
      (λ _. (b.0, insert_by_hash-All P t us a b.1)) (λ _. (a, b))

pub sort_by_hash-All {κ} :
    (P : Tuple → Type κ) (ts : List Tuple) → All P ts → All P (sort_by_hash ts)
unfolding sort_by_hash
sort_by_hash-All P [] a = tt
sort_by_hash-All P (t ∷ ts) a =
    insert_by_hash-All P t (sort_by_hash ts) a.0 (sort_by_hash-All P ts a.1)

count_if-insert_by_hash :
    (q : Tuple → Bool) (t : Tuple) (us : List Tuple)
    → count_if q (insert_by_hash t us) ≡ count_if q (t ∷ us)
unfolding insert_by_hash
count_if-insert_by_hash q t [] = refl
count_if-insert_by_hash q t (u ∷ us) = ground (arith, count_if-insert_by_hash q t us)

pub count_if-sort_by_hash :
    (q : Tuple → Bool) (ts : List Tuple) → count_if q (sort_by_hash ts) ≡ count_if q ts
unfolding sort_by_hash
count_if-sort_by_hash q [] = refl
count_if-sort_by_hash q (t ∷ ts) =
    ground (arith, count_if-insert_by_hash q t (sort_by_hash ts), count_if-sort_by_hash q ts)
