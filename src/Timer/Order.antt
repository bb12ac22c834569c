-- ===== src/Timer/Order.antt =====
-- The order of a binary heap, on the deadlines as a function of the index.
use bdls.Base.{
  ℕ, zero, suc, ◌-◌, ◌/◌, ◌<◌, ◌≤◌, ◌≡◌, ◌≢◌, subst, sym, arith, if◌then◌else◌, ◌==◌, Bool-cases,
  inl, inr, ==→eq,
}

abbrev pub parent : ℕ → ℕ
parent i = (i - 1) / 2

-- No deadline among the first `n` is before that of its parent.
abbrev pub Ordered : (ℕ → ℕ) → ℕ → Type 0
Ordered t n = (i : ℕ) → 0 < i → i < n → t (parent i) ≤ t i

-- As `Ordered`, save between `j` and its parent, of which the children of `j` come behind.
abbrev pub OrderedAbove : (ℕ → ℕ) → ℕ → ℕ → Type 0
OrderedAbove t n j =
    (i : ℕ)
    → 0 < i
    → i < n
    → (i ≢ j → t (parent i) ≤ t i) × (parent i ≡ j → 0 < j → t (parent j) ≤ t i)

-- As `Ordered`, save between `j` and its children, which come behind the parent of `j`.
abbrev pub OrderedBelow : (ℕ → ℕ) → ℕ → ℕ → Type 0
OrderedBelow t n j =
    (i : ℕ)
    → 0 < i
    → i < n
    → (parent i ≢ j → t (parent i) ≤ t i) × (parent i ≡ j → 0 < j → t (parent j) ≤ t i)

-- The function behind a swap.
abbrev pub swapped : (ℕ → ℕ) → ℕ → ℕ → ℕ → ℕ
swapped t i j k = if j == k then t i else if i == k then t j else t k

module _ (t : ℕ → ℕ) (n : ℕ) where
  pub above-Ordered : (j : ℕ) → OrderedAbove t n j → (0 < j → t (parent j) ≤ t j) → Ordered t n
  above-Ordered j o h i a b = elim (Bool-cases (i == j)) [
    | inl same ↦
        subst (λ (k : ℕ). t (parent k) ≤ t k) (sym (==→eq i j same))
          (h (omega (arith, a, ==→eq i j same)))
    | inr other ↦ (o i a b).0 (λ e. ground arith)
  ]

  -- The step of `up`.
  pub above-swapped :
      (j : ℕ)
      → 0 < j
      → j < n
      → t j < t (parent j)
      → OrderedAbove t n j
      → OrderedAbove (swapped t (parent j) j) n (parent j)
  above-swapped j pos a l o i b c = (
    λ other. grind (arith, o i b c, o j pos a),
    λ child pos'. grind (arith, o i b c, o (parent j) pos'),
  )

  -- The children of `j` are not before it.
  pub below-Ordered :
      (j : ℕ)
      → OrderedBelow t n j
      → ((i : ℕ) → 0 < i → i < n → parent i ≡ j → t j ≤ t i)
      → Ordered t n
  below-Ordered j o h i a b = elim (Bool-cases (parent i == j)) [
    | inl same ↦ let e = ==→eq (parent i) j same in subst (λ (k : ℕ). t k ≤ t i) (sym e) (h i a b e)
    | inr other ↦ (o i a b).0 (λ e. ground arith)
  ]

  -- The step of `down`, to a child `c` that is least among its siblings.
  pub below-swapped :
      (j c : ℕ)
      → 0 < c
      → c < n
      → parent c ≡ j
      → t c < t j
      → ((i : ℕ) → 0 < i → i < n → parent i ≡ j → t c ≤ t i)
      → OrderedBelow t n j
      → OrderedBelow (swapped t j c) n c
  below-swapped j c pos a e l least o i b d = (
    λ other. grind (arith, o i b d, least i b d, o j, o c pos a),
    λ under pos'. grind (arith, o i b d, o c pos a),
  )

  -- The root comes first.
  pub root-least : Ordered t n → (fuel i : ℕ) → i < fuel → i < n → t 0 ≤ t i
  root-least o zero i k a = absurd (omega (arith, k))
  root-least o (suc fuel) zero k a = omega arith
  root-least o (suc fuel) (suc i) k a =
      let up = root-least o fuel (parent (suc i)) (omega (arith, k)) (omega (arith, a)) in
      omega (arith, up, o (suc i) (omega arith) a)

-- Functions that agree on the first `n` are ordered alike.
pub Ordered-agree :
    (t s : ℕ → ℕ) (n : ℕ) → ((i : ℕ) → i < n → t i ≡ s i) → Ordered t n → Ordered s n
Ordered-agree t s n e o i a b = omega (arith, e i b, e (parent i) (omega (arith, b)), o i a b)

pub above-agree :
    (t s : ℕ → ℕ) (n j : ℕ)
    → ((i : ℕ) → i < n → t i ≡ s i)
    → j < n
    → OrderedAbove t n j
    → OrderedAbove s n j
above-agree t s n j e k o i a b =
    let there = e i b in
    let above = e (parent i) (omega (arith, b)) in
    let far = e (parent j) (omega (arith, k)) in
    (
      λ other. let h = (o i a b).0 other in omega (arith, there, above, h),
      λ under pos. let h = (o i a b).1 under pos in omega (arith, there, far, h),
    )

pub below-agree :
    (t s : ℕ → ℕ) (n j : ℕ)
    → ((i : ℕ) → i < n → t i ≡ s i)
    → OrderedBelow t n j
    → OrderedBelow s n j
below-agree t s n j e o i a b =
    let there = e i b in
    let above = e (parent i) (omega (arith, b)) in
    (
      λ other. let h = (o i a b).0 other in omega (arith, there, above, h),
      λ under pos.
          let h = (o i a b).1 under pos in
          let far = e (parent j) (omega (arith, b, under)) in omega (arith, there, far, h),
    )
