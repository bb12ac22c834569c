-- ===== src/Base/Assoc.antt =====
-- Go's maps with a number for a key, as association lists: one entry for each key.
use Prim.Native.Nat.{ℕ}
use mathlib.Core.Path.{◌≡◌, refl}
use mathlib.Core.Logic.{inl, inr}
use mathlib.Core.Bool.{Bool, true, false}
use mathlib.Core.List.{List, [], ◌∷◌}
use native.Mathlib.Omega.{arith}
use bdls.Base.Tests.{◌==◌, if◌then◌else◌, Bool-cases}
use bdls.Base.Lists.{length, has, Distinct, All, count_if}

module _ {ℓ} {V : Type ℓ} where
  -- `m[k] = v`.
  unfoldable pub insert : ℕ → V → List (ℕ × V) → List (ℕ × V)
  insert k v [] = (k, v) ∷ []
  insert k v ((j, w) ∷ m) = let rest = insert k v m in if k == j then (k, v) ∷ m else (j, w) ∷ rest

  abbrev pub keys : List (ℕ × V) → List ℕ
  keys [] = []
  keys ((j, w) ∷ m) = j ∷ keys m

  -- The keys whose values pass a test.
  abbrev pub keys_if : (V → Bool) → List (ℕ × V) → List ℕ
  keys_if p [] = []
  keys_if p ((j, w) ∷ m) = let rest = keys_if p m in if p w then j ∷ rest else rest

  abbrev pub values : List (ℕ × V) → List V
  values [] = []
  values ((j, w) ∷ m) = w ∷ values m

  pub has-insert :
      (a k : ℕ) (v : V) (m : List (ℕ × V))
      → has a (keys (insert k v m)) ≡ (if a == k then true else has a (keys m))
  unfolding insert
  has-insert a k v [] = ground arith
  has-insert a k v ((j, w) ∷ m) = ground (arith, has-insert a k v m)

  pub Distinct-insert :
      (k : ℕ) (v : V) (m : List (ℕ × V)) → Distinct (keys m) → Distinct (keys (insert k v m))
  unfolding insert
  Distinct-insert k v [] d = (refl, tt)
  Distinct-insert k v ((j, w) ∷ m) d = ground (arith, has-insert j k v m, Distinct-insert k v m d.1)

  pub has-keys_if :
      (a : ℕ) (p : V → Bool) (m : List (ℕ × V))
      → has a (keys m) ≡ false
      → has a (keys_if p m) ≡ false
  has-keys_if a p [] h = refl
  has-keys_if a p ((j, w) ∷ m) h = ground (arith, has-keys_if a p m)

  pub Distinct-keys_if :
      (p : V → Bool) (m : List (ℕ × V)) → Distinct (keys m) → Distinct (keys_if p m)
  Distinct-keys_if p [] d = tt
  Distinct-keys_if p ((j, w) ∷ m) d = ground (arith, has-keys_if j p m, Distinct-keys_if p m d.1)

  pub count_if-values :
      (p : V → Bool) (m : List (ℕ × V)) → count_if p (values m) ≡ length (keys_if p m)
  count_if-values p [] = refl
  count_if-values p ((j, w) ∷ m) = ground (arith, count_if-values p m)

  pub length-keys : (m : List (ℕ × V)) → length (keys m) ≡ length m
  length-keys [] = refl
  length-keys ((j, w) ∷ m) = omega (arith, length-keys m)

  -- What every entry of a map satisfies.
  abbrev pub Entries {κ} : (ℕ → V → Type κ) → List (ℕ × V) → Type κ
  Entries P [] = Unit
  Entries P ((j, w) ∷ m) = P j w × Entries P m

  pub Entries-insert {κ} :
      (P : ℕ → V → Type κ) (k : ℕ) (v : V) (m : List (ℕ × V))
      → P k v
      → Entries P m
      → Entries P (insert k v m)
  unfolding insert
  Entries-insert P k v [] h e = (h, tt)
  Entries-insert P k v ((j, w) ∷ m) h e = elim (Bool-cases (k == j)) [
    | inl same ↦ rw same (h, e.1)
    | inr other ↦ rw other (e.0, Entries-insert P k v m h e.1)
  ]

  -- What is known of the entries holds of the keys whose values pass a test.
  pub Entries-keys_if {κ ι} :
      (P : ℕ → V → Type κ) (Q : ℕ → Type ι) (p : V → Bool) (m : List (ℕ × V))
      → ((k : ℕ) (v : V) → P k v → p v ≡ true → Q k)
      → Entries P m
      → All Q (keys_if p m)
  Entries-keys_if P Q p [] f e = tt
  Entries-keys_if P Q p ((j, w) ∷ m) f e = elim (Bool-cases (p w)) [
    | inl passes ↦ rw passes (f j w e.0 passes, Entries-keys_if P Q p m f e.1)
    | inr fails ↦ rw fails (Entries-keys_if P Q p m f e.1)
  ]
