-- ===== src/Timer/Tasks.antt =====
-- timedFunc and timedFuncHeap of timedsched.go, under Push and Pop of Go's container/heap.
use bdls.Base.{
  ℕ, zero, suc, ◌+◌, ◌*◌, ◌-◌, ◌/◌, List, [], ◌∷◌, ◌++◌, Bool, not, if◌then◌else◌, ◌==◌, ◌&&◌, ◌||◌,
  ltb, length, set, take,
}

-- `timedFunc`: a function is known by a number.
pub record Task : Type 0 where
  pub execute : ℕ
  pub ts : ℕ  -- the deadline

-- What is read at an index; the code reads at indices of the slice only.
abbrev pub at : List Task → ℕ → Task
at [] i = record { execute = 0; ts = 0 }
at (x ∷ h) zero = x
at (x ∷ h) (suc i) = at h i

-- `Less`, `Swap`.
abbrev pub less : List Task → ℕ → ℕ → Bool
less h i j = ltb (at h i).ts (at h j).ts

unfoldable pub swap : List Task → ℕ → ℕ → List Task
swap h i j = set (set h i (at h j)) j (at h i)

-- `up` of container/heap from index `j`, for as many levels as the fuel allows.
unfoldable pub up : ℕ → List Task → ℕ → List Task
unfolding swap
up zero h j = h
up (suc fuel) h j =
    let i = (j - 1) / 2 in
    let next = up fuel (swap h i j) i in if i == j || not (less h j i) then h else next

-- The smaller child of `i` among the first `n`.
abbrev pub child : List Task → ℕ → ℕ → ℕ
child h i n = let j1 = 2 * i + 1 in let j2 = j1 + 1 in if ltb j2 n && less h j2 j1 then j2 else j1

-- `down` of container/heap from index `i` among the first `n`.
unfoldable pub down : ℕ → List Task → ℕ → ℕ → List Task
unfolding swap
down zero h i n = h
down (suc fuel) h i n =
    let j = child h i n in
    let next = down fuel (swap h i j) j n in
    if not (ltb (2 * i + 1) n) then h else if not (less h j i) then h else next

-- `heap.Push`.
unfoldable pub push : List Task → Task → List Task
unfolding up
push h x = up (length h + 1) (h ++ x ∷ []) (length h)

-- `heap.Pop` of a heap that is not empty: the root, and the heap without it.
unfoldable pub pop : List Task → Task × List Task
unfolding down swap
pop h =
    let n = length h - 1 in let sunk = down (length h) (swap h 0 n) 0 n in (at sunk n, take n sunk)
