-- ===== src/Agent/Addresses.antt =====
-- Lists of addresses: which of them stand in a list, and the list without the first of one.
use Prim.Native.String.{String}
use text.Mathlib.Text.{◌==◌ as str_eq}
use text.Mathlib.TextEquality.{eq_iff}
use bdls.Base.{
  ◌≡◌, refl, sym, ap, subst, ◌∙◌, List, [], ◌∷◌, ◌++◌, Bool, true, false, ◌||◌, arith,
  if◌then◌else◌, any_of, Bool-cases, inl, inr,
}

abbrev pub among : String → List String → Bool
among a = any_of (str_eq a)

abbrev pub without : String → List String → List String
without a [] = []
without a (x ∷ xs) = let rest = without a xs in if str_eq a x then xs else x ∷ rest

-- No address stands twice.
abbrev pub Different : List String → Type 0
Different [] = Unit
Different (x ∷ xs) = (among x xs ≡ false) × Different xs

pub str_eq-sym : (a b : String) → str_eq a b ≡ str_eq b a
str_eq-sym a b = elim (Bool-cases (str_eq a b)) [
  | inl e ↦ let same = (eq_iff a b).0 e in e ∙ sym ((eq_iff b a).1 (sym same))
  | inr e ↦ elim (Bool-cases (str_eq b a)) [
    | inl f ↦ absurd (cc (e, (eq_iff a b).1 (sym ((eq_iff b a).0 f))))
    | inr f ↦ e ∙ sym f
  ]
]

-- An address that is another is not a third by the same test.
str_eq-other : (a b x : String) → str_eq a b ≡ false → str_eq a x ≡ true → str_eq b x ≡ false
str_eq-other a b x other same =
    let e = (eq_iff a x).0 same in str_eq-sym b x ∙ sym (ap (λ (t : String). str_eq t b) e) ∙ other

pub among-without :
    (a b : String) (xs : List String) → among b (without a xs) ≡ true → among b xs ≡ true
among-without a b [] h = h
among-without a b (x ∷ xs) h = ground (arith, among-without a b xs)

pub among-without_other :
    (a b : String) (xs : List String)
    → str_eq a b ≡ false
    → among b xs ≡ true
    → among b (without a xs) ≡ true
among-without_other a b [] other h = h
among-without_other a b (x ∷ xs) other h =
    ground (arith, among-without_other a b xs other, str_eq-other a b x other)

pub among-without_same :
    (a : String) (xs : List String) → Different xs → among a (without a xs) ≡ false
among-without_same a [] d = refl
among-without_same a (x ∷ xs) d = elim (Bool-cases (str_eq a x)) [
  | inl same ↦ rw same (subst (λ (t : String). among t xs ≡ false) (sym ((eq_iff a x).0 same)) d.0)
  | inr other ↦ rw other (rw other (among-without_same a xs d.1))
]

pub Different-without : (a : String) (xs : List String) → Different xs → Different (without a xs)
Different-without a [] d = tt
Different-without a (x ∷ xs) d = elim (Bool-cases (str_eq a x)) [
  | inl same ↦ rw same d.1
  | inr other ↦ rw other (
    elim (Bool-cases (among x (without a xs))) [
      | inl there ↦ absurd (cc (among-without a x xs there, d.0))
      | inr gone ↦ gone
    ],
    Different-without a xs d.1,
  )
]

pub among-append :
    (a y : String) (xs : List String) → among a (xs ++ y ∷ []) ≡ (among a xs || str_eq a y)
among-append a y [] = ground arith
among-append a y (x ∷ xs) = ground (arith, among-append a y xs)

pub Different-append :
    (y : String) (xs : List String) → among y xs ≡ false → Different xs → Different (xs ++ y ∷ [])
Different-append y [] h d = (refl, tt)
Different-append y (x ∷ xs) h d =
    (ground (arith, among-append x y xs, str_eq-sym x y), Different-append y xs (ground arith) d.1)
