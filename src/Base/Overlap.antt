-- ===== src/Base/Overlap.antt =====
-- Counting with lists that do not repeat: the parts that two lists share.
use bdls.Base.Tests.{◌==◌, if◌then◌else◌, Bool-cases}
use bdls.Base.Lists.{length, has, keep_if, Distinct, All, length-append}
use Prim.Native.Nat.{ℕ, suc, ◌+◌, ◌≤◌}
use mathlib.Core.Path.{◌≡◌, refl}
use mathlib.Core.Logic.{inl, inr}
use mathlib.Core.Bool.{Bool, true, false, not, ◌||◌}
use mathlib.Core.List.{List, [], ◌∷◌, ◌++◌}
use native.Mathlib.Omega.{arith}

-- Every member of the first list is in the second.
abbrev pub Within : List ℕ → List ℕ → Type 0
Within xs ys = All (λ x. has x ys ≡ true) xs

remove : ℕ → List ℕ → List ℕ
remove a [] = []
remove a (x ∷ xs) = let rest = remove a xs in if a == x then xs else x ∷ rest

length-remove : (a : ℕ) (xs : List ℕ) → has a xs ≡ true → suc (length (remove a xs)) ≡ length xs
unfolding remove
length-remove a [] h = cc
length-remove a (x ∷ xs) h = ground (arith, length-remove a xs)

has-remove :
    (a b : ℕ) (xs : List ℕ) → (a == b) ≡ false → has b xs ≡ true → has b (remove a xs) ≡ true
unfolding remove
has-remove a b [] n h = h
has-remove a b (x ∷ xs) n h = ground (arith, has-remove a b xs)

Within-remove : (a : ℕ) (xs ys : List ℕ) → has a xs ≡ false → Within xs ys → Within xs (remove a ys)
Within-remove a [] ys n w = tt
Within-remove a (x ∷ xs) ys n w =
    (has-remove a x ys (ground arith) w.0, Within-remove a xs ys (ground arith) w.1)

pub length-Within : (xs ys : List ℕ) → Distinct xs → Within xs ys → length xs ≤ length ys
length-Within [] ys d w = omega arith
length-Within (x ∷ xs) ys d w =
    let shorter = length-Within xs (remove x ys) d.1 (Within-remove x xs ys d.0 w.1) in
    omega (arith, shorter, length-remove x ys w.0)

has-append : (a : ℕ) (xs ys : List ℕ) → has a (xs ++ ys) ≡ (has a xs || has a ys)
has-append a [] ys = refl
has-append a (x ∷ xs) ys = ground (arith, has-append a xs ys)

pub has-keep_if :
    (a : ℕ) (p : ℕ → Bool) (xs : List ℕ) → has a xs ≡ false → has a (keep_if p xs) ≡ false
has-keep_if a p [] h = refl
has-keep_if a p (x ∷ xs) h = ground (arith, has-keep_if a p xs)

pub Distinct-keep_if : (p : ℕ → Bool) (xs : List ℕ) → Distinct xs → Distinct (keep_if p xs)
Distinct-keep_if p [] d = tt
Distinct-keep_if p (x ∷ xs) d = ground (arith, has-keep_if x p xs, Distinct-keep_if p xs d.1)

abbrev pub common : List ℕ → List ℕ → List ℕ
common ys = keep_if (λ x. has x ys)

abbrev outside : List ℕ → List ℕ → List ℕ
outside ys = keep_if (λ x. not (has x ys))

length-common-outside :
    (ys xs : List ℕ) → length (common ys xs) + length (outside ys xs) ≡ length xs
length-common-outside ys [] = refl
length-common-outside ys (x ∷ xs) = ground (arith, length-common-outside ys xs)

Distinct-join : (xs ys : List ℕ) → Distinct xs → Distinct ys → Distinct (outside ys xs ++ ys)
Distinct-join [] ys dx dy = dy
Distinct-join (x ∷ xs) ys dx dy = elim (Bool-cases (has x ys)) [
  | inl old ↦ rw old (Distinct-join xs ys dx.1 dy)
  | inr new ↦ rw new (
    ground (arith, has-append x (outside ys xs) ys, has-keep_if x (λ k. not (has k ys)) xs),
    Distinct-join xs ys dx.1 dy,
  )
]

Within-join : (xs ys us : List ℕ) → Within xs us → Within ys us → Within (outside ys xs ++ ys) us
Within-join [] ys us wx wy = wy
Within-join (x ∷ xs) ys us wx wy = ground (arith, Within-join xs ys us wx.1 wy)

-- Inclusion and exclusion, as far as it is needed.
pub length-common :
    (xs ys us : List ℕ)
    → Distinct xs
    → Distinct ys
    → Within xs us
    → Within ys us
    → length xs + length ys ≤ length us + length (common ys xs)
length-common xs ys us dx dy wx wy =
    let joined =
      length-Within (outside ys xs ++ ys) us (Distinct-join xs ys dx dy)
        (Within-join xs ys us wx wy) in
    omega (arith, joined, length-append (outside ys xs) ys, length-common-outside ys xs)
