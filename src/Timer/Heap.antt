-- ===== src/Timer/Heap.antt =====
-- Push and pop of timedsched.go's heap: what they keep and what comes first.
use bdls.Base.{
  ℕ, zero, suc, ◌+◌, ◌-◌, ◌*◌, ◌/◌, ◌<◌, ◌≤◌, ◌≡◌, refl, ap, subst, sym, ◌∙◌, List, [], ◌∷◌, ◌++◌,
  Bool, false, not, arith, ◌==◌, ◌||◌, ltb, Bool-cases, inl, inr, ==→eq, if_cases, length, take,
  count_if, length-append,
}
use bdls.Timer.Tasks.{Task, at, swap, less, up, child, down, push, pop}
use bdls.Timer.Cells.{
  length-swap, at-swap, count-swap, count-append, at-append, at-take, length-take, count-take,
}
use bdls.Timer.Order.{
  parent, Ordered, OrderedAbove, OrderedBelow, swapped, above-Ordered, above-swapped, below-Ordered,
  below-swapped, root-least, Ordered-agree, above-agree, below-agree,
}

abbrev pub deadline : List Task → ℕ → ℕ
deadline h i = (at h i).ts

-- The deadlines are in the order of a heap.
abbrev pub IsHeap : List Task → Type 0
IsHeap h = Ordered (deadline h) (length h)

-- The same tasks, each as often.
abbrev pub SameTasks : List Task → List Task → Type 0
SameTasks g h = (p : Task → Bool) → count_if p g ≡ count_if p h

deadline-swap :
    (h : List Task) (i j k : ℕ)
    → i < length h
    → j < length h
    → deadline (swap h i j) k ≡ swapped (deadline h) i j k
deadline-swap h i j k a b = ap (λ (x : Task). x.ts) (at-swap h i j k a b) ∙ ground arith

-- What sifting keeps.
pub record Sifted (h g : List Task) : Type 0 where
  pub same_length : length g ≡ length h
  pub same_tasks : SameTasks g h

Sifted-refl : (h : List Task) → Sifted h h
Sifted-refl h = record { same_length = refl; same_tasks = λ p. refl }

swap-Sifted :
    (h g : List Task) (i j : ℕ) → i < length h → j < length h → Sifted (swap h i j) g → Sifted h g
swap-Sifted h g i j a b s = record {
  same_length = s.same_length ∙ length-swap h i j;
  same_tasks = λ p. s.same_tasks p ∙ count-swap p h i j a b;
}

up-lem :
    (fuel : ℕ) (h : List Task) (j : ℕ)
    → j < fuel
    → j < length h
    → OrderedAbove (deadline h) (length h) j
    → Sifted h (up fuel h j) × IsHeap (up fuel h j)
unfolding up
up-lem zero h j k a o = absurd (omega (arith, k))
up-lem (suc fuel) h j k a o =
    let i = (j - 1) / 2 in
    if_cases (λ (g : List Task). Sifted h g × IsHeap g) (i == j || not (less h j i)) _ _
      (λ stop. (Sifted-refl h, above-Ordered (deadline h) (length h) j o (λ pos. ground arith)))
      (λ goes.
        let pos : 0 < j = ground arith in
        let before : deadline h j < deadline h i = ground arith in
        let b : i < length h = omega (arith, a) in
        let g = swap h i j in
        let len = length-swap h i j in
        let o' =
          above-agree (swapped (deadline h) i j) (deadline g) (length h) i
            (λ k' _. sym (deadline-swap h i j k' b a)) b
            (above-swapped (deadline h) (length h) j pos a before o) in
        let (s, ordered) =
          up-lem fuel g i (omega (arith, k, pos)) (omega (arith, len, b))
            (subst (λ (n : ℕ). OrderedAbove (deadline g) n i) (sym len) o') in
        (swap-Sifted h _ i j b a s, ordered))

not_here : (i k : ℕ) → i < k → (i == k) ≡ false
not_here i k h = ground arith

-- The first `n` are in order behind `down`.
record Sunk (h : List Task) (n : ℕ) (g : List Task) : Type 0 where
  sifted : Sifted h g
  in_order : Ordered (deadline g) n
  outside : (k : ℕ) → n ≤ k → at g k ≡ at h k

child-least :
    (h : List Task) (i n k : ℕ)
    → 0 < k
    → k < n
    → parent k ≡ i
    → deadline h (child h i n) ≤ deadline h k
child-least h i n k a b e = elim (Bool-cases (k == 2 * i + 1)) [
  | inl left ↦
      subst (λ (c : ℕ). deadline h (child h i n) ≤ deadline h c) (sym (==→eq k (2 * i + 1) left))
        (ground arith)
  | inr other ↦
      let right : k ≡ 2 * i + 1 + 1 = ground arith in
      let inside : 2 * i + 1 + 1 < n = omega (arith, right, b) in
      subst (λ (c : ℕ). deadline h (child h i n) ≤ deadline h c) (sym right) (ground arith)
]

parent-child :
    (h : List Task) (i n : ℕ)
    → 2 * i + 1 < n
    → (0 < child h i n) × (child h i n < n) × (parent (child h i n) ≡ i) × (i < child h i n)
parent-child h i n a = ground arith

down-lem :
    (fuel : ℕ) (h : List Task) (i n : ℕ)
    → n < i + fuel
    → n ≤ length h
    → OrderedBelow (deadline h) n i
    → Sunk h n (down fuel h i n)
unfolding down
down-lem zero h i n k a o = record {
  sifted = Sifted-refl h;
  in_order = below-Ordered (deadline h) n i o (λ c p l e. absurd (omega (arith, k, l, e)));
  outside = λ c l. refl;
}
down-lem (suc fuel) h i n k a o =
    let j = child h i n in
    if_cases (Sunk h n) (not (ltb (2 * i + 1) n)) _ _
      (λ leaf. record {
        sifted = Sifted-refl h;
        in_order = below-Ordered (deadline h) n i o (λ c p l e. ground arith);
        outside = λ c l. refl;
      })
      (λ inner.
        let (pos, inside, under, below) = parent-child h i n (ground arith) in
        if_cases (Sunk h n) (not (less h j i)) _ _
          (λ stop. record {
            sifted = Sifted-refl h;
            in_order =
                below-Ordered (deadline h) n i o
                  (λ c p l e. let least = child-least h i n c p l e in ground arith);
            outside = λ c l. refl;
          })
          (λ goes.
            let before : deadline h j < deadline h i = ground arith in
            let g = swap h i j in
            let bi : i < length h = omega (arith, a, below, inside) in
            let bj : j < length h = omega (arith, a, inside) in
            let o' =
              below-agree (swapped (deadline h) i j) (deadline g) n j
                (λ k' _. sym (deadline-swap h i j k' bi bj))
                (below-swapped (deadline h) n i j pos inside under before (child-least h i n) o) in
            let r =
              down-lem fuel g j n (omega (arith, k, below)) (omega (arith, a, length-swap h i j))
                o' in
            record {
              sifted = swap-Sifted h _ i j bi bj r.sifted;
              in_order = r.in_order;
              outside = λ c l.
                  let kept : at g c ≡ at h c = rw (at-swap h i j c bi bj) (
                    rw
                      (
                        not_here j c (omega (arith, l, inside)),
                        not_here i c (omega (arith, l, below, inside)),
                      )
                      refl) in
                  r.outside c l ∙ kept;
            }))

-- A task that is pushed joins the others, and the heap stays in order.
pub push-IsHeap :
    (h : List Task) (x : Task)
    → IsHeap h
    → IsHeap (push h x) × (length (push h x) ≡ suc (length h)) × SameTasks (push h x) (x ∷ h)
unfolding push
push-IsHeap h x o =
    let g = h ++ x ∷ [] in
    let n = length h in
    let len : length g ≡ suc n = omega (arith, length-append h (x ∷ [])) in
    let old : OrderedAbove (deadline g) (length g) n = λ i a b. (
      λ other.
          let inside : i < n = ground arith in
          let here = ap (λ (y : Task). y.ts) (at-append h x i inside) in
          let above = ap (λ (y : Task). y.ts) (at-append h x (parent i) (omega (arith, inside))) in
          omega (arith, here, above, o i a inside),
      λ under pos. absurd (omega (arith, b, len, under)),
    ) in
    let (s, ordered) = up-lem (n + 1) g n (omega arith) (omega (arith, len)) old in
    (ordered, s.same_length ∙ len, λ p. s.same_tasks p ∙ count-append p h (x ∷ []) ∙ ground arith)

-- What is popped is the root, no task is due before it, and the rest stays in order.
pub pop-IsHeap :
    (h : List Task)
    → 0 < length h
    → IsHeap h
    → ((pop h).0 ≡ at h 0)
      × IsHeap (pop h).1
      × (suc (length (pop h).1) ≡ length h)
      × SameTasks ((pop h).0 ∷ (pop h).1) h
unfolding pop
pop-IsHeap h pos o =
    let n = length h - 1 in
    let last : n < length h = omega (arith, pos) in
    let g = swap h 0 n in
    let len : length g ≡ suc n = omega (arith, length-swap h 0 n, pos) in
    let agree : (i : ℕ) → 0 < i → i < n → deadline g i ≡ deadline h i =
      λ i a b. deadline-swap h 0 n i pos last ∙ ground arith in
    let below : OrderedBelow (deadline g) n 0 = λ i a b. (
      λ other.
          let inner : 0 < parent i = ground arith in
          let above = agree (parent i) inner (omega (arith, b)) in
          omega (arith, agree i a b, above, o i a (omega (arith, b, last))),
      λ under impossible. absurd (omega (arith, impossible)),
    ) in
    let r = down-lem (length h) g 0 n (omega (arith, last)) (omega (arith, len)) below in
    let sunk = down (length h) g 0 n in
    let len' : length sunk ≡ suc n = r.sifted.same_length ∙ len in
    let size = length-take sunk n (omega (arith, len')) in
    (
      r.outside n (omega arith) ∙ at-swap h 0 n n pos last ∙ ground arith,
      subst (Ordered (deadline (take n sunk))) (sym size) (
          Ordered-agree (deadline sunk) (deadline (take n sunk)) n
            (λ i a. ap (λ (x : Task). x.ts) (sym (at-take sunk n i a))) r.in_order),
      omega (arith, size, pos),
      λ p. count-take p sunk n len' ∙ r.sifted.same_tasks p ∙ count-swap p h 0 n pos last,
    )

-- The root is due first.
pub IsHeap-least : (h : List Task) (i : ℕ) → IsHeap h → i < length h → deadline h 0 ≤ deadline h i
IsHeap-least h i o a = root-least (deadline h) (length h) o (suc i) i (omega arith) a
