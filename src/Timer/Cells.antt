-- ===== src/Timer/Cells.antt =====
-- The slice of tasks as an array: reads behind writes, and how often a task stands in it.
use bdls.Base.{
  ℕ, zero, suc, ◌+◌, ◌<◌, ◌≤◌, ◌≡◌, refl, List, [], ◌∷◌, ◌++◌, Bool, true, false, arith,
  if◌then◌else◌, ◌==◌, length, set, take, count_if,
}
use bdls.Timer.Tasks.{Task, at, swap}

pub at-set :
    (h : List Task) (i j : ℕ) (v : Task)
    → i < length h
    → at (set h i v) j ≡ (if i == j then v else at h j)
at-set [] i j v k = absurd (omega (arith, k))
at-set (x ∷ h) zero zero v k = refl
at-set (x ∷ h) zero (suc j) v k = ground arith
at-set (x ∷ h) (suc i) zero v k = ground arith
at-set (x ∷ h) (suc i) (suc j) v k = ground (arith, at-set h i j v)

pub length-set : (h : List Task) (i : ℕ) (v : Task) → length (set h i v) ≡ length h
length-set [] i v = refl
length-set (x ∷ h) zero v = refl
length-set (x ∷ h) (suc i) v = omega (arith, length-set h i v)

abbrev one : Bool → ℕ
one true = 1
one false = 0

count-set :
    (p : Task → Bool) (h : List Task) (i : ℕ) (v : Task)
    → i < length h
    → count_if p (set h i v) + one (p (at h i)) ≡ count_if p h + one (p v)
count-set p [] i v k = absurd (omega (arith, k))
count-set p (x ∷ h) zero v k = ground arith
count-set p (x ∷ h) (suc i) v k = ground (arith, count-set p h i v)

pub length-swap : (h : List Task) (i j : ℕ) → length (swap h i j) ≡ length h
unfolding swap
length-swap h i j = omega (arith, length-set (set h i (at h j)) j (at h i), length-set h i (at h j))

pub at-swap :
    (h : List Task) (i j k : ℕ)
    → i < length h
    → j < length h
    → at (swap h i j) k ≡ (if j == k then at h i else if i == k then at h j else at h k)
unfolding swap
at-swap h i j k a b =
    let e = length-set h i (at h j) in
    rw (at-set (set h i (at h j)) j k (at h i) (omega (arith, e, b)), at-set h i k (at h j) a) refl

pub count-swap :
    (p : Task → Bool) (h : List Task) (i j : ℕ)
    → i < length h
    → j < length h
    → count_if p (swap h i j) ≡ count_if p h
unfolding swap
count-swap p h i j a b =
    let e = length-set h i (at h j) in
    let read : at (set h i (at h j)) j ≡ at h j = rw (at-set h i j (at h j) a) (ground arith) in
    let second = count-set p (set h i (at h j)) j (at h i) (omega (arith, e, b)) in
    let first = count-set p h i (at h j) a in omega (arith, rw read at second, first)

pub count-append :
    (p : Task → Bool) (xs ys : List Task) → count_if p (xs ++ ys) ≡ count_if p xs + count_if p ys
count-append p [] ys = omega arith
count-append p (x ∷ xs) ys = ground (arith, count-append p xs ys)

pub at-append : (h : List Task) (x : Task) (k : ℕ) → k < length h → at (h ++ x ∷ []) k ≡ at h k
at-append [] x k a = absurd (omega (arith, a))
at-append (y ∷ h) x zero a = refl
at-append (y ∷ h) x (suc k) a = ground (arith, at-append h x k)

pub at-take : (h : List Task) (n k : ℕ) → k < n → at (take n h) k ≡ at h k
at-take h zero k a = absurd (omega (arith, a))
at-take [] (suc n) k a = refl
at-take (x ∷ h) (suc n) zero a = refl
at-take (x ∷ h) (suc n) (suc k) a = ground (arith, at-take h n k)

pub length-take : (h : List Task) (n : ℕ) → n ≤ length h → length (take n h) ≡ n
length-take h zero a = refl
length-take [] (suc n) a = absurd (omega (arith, a))
length-take (x ∷ h) (suc n) a = ground (arith, length-take h n)

-- A slice without its last element.
pub count-take :
    (p : Task → Bool) (h : List Task) (n : ℕ)
    → length h ≡ suc n
    → count_if p (at h n ∷ take n h) ≡ count_if p h
count-take p [] n e = absurd (omega (arith, e))
count-take p (x ∷ []) zero e = refl
count-take p (x ∷ y ∷ h) zero e = absurd (omega (arith, e))
count-take p (x ∷ h) (suc n) e = ground (arith, count-take p h n)
