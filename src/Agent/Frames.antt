-- ===== src/Agent/Frames.antt =====
-- The frames of tcp_peer.go: what is written for a message is read back as that message.
use native.Mathlib.Nat.{pow-suc}
use bdls.Base.{
  ℕ, zero, suc, ◌+◌, ◌/◌, ◌%◌, ◌^◌, ◌≤◌, ◌<◌, ◌≡◌, refl, ap, subst, List, [], ◌∷◌, ◌++◌, Option,
  none, some, false, arith, if◌then◌else◌, ◌==◌, ◌||◌, ltb, Option-cases, if_cases, inl, inr,
  length,
}
use bdls.Message.{Bytes}
use bdls.Message.Signing.{little_endian}
use bdls.Agent.{max_message_length}
use bdls.Agent.Framing.{of_little_endian, read_full, read_frame, write_frame}

length-little_endian : (k n : ℕ) → length (little_endian k n) ≡ k
unfolding little_endian
length-little_endian zero n = refl
length-little_endian (suc k) n = ap suc (length-little_endian k (n / 256))

of_little_endian-little_endian : (k n : ℕ) → n < 256 ^ k → of_little_endian (little_endian k n) ≡ n
unfolding little_endian of_little_endian
of_little_endian-little_endian zero n h = omega arith
of_little_endian-little_endian (suc k) n h =
    let e = pow-suc 256 k in
    let below : n / 256 < 256 ^ k = omega (arith, e) in
    omega (arith, of_little_endian-little_endian k (n / 256) below)

read_full-append : (xs rest : List ℕ) → read_full (length xs) (xs ++ rest) ≡ some (xs, rest)
unfolding read_full
read_full-append [] rest = refl
read_full-append (x ∷ xs) rest = rw (read_full-append xs rest) refl

pub append_assoc : {A : Type 0} (xs ys zs : List A) → (xs ++ ys) ++ zs ≡ xs ++ (ys ++ zs)
append_assoc [] ys zs = refl
append_assoc {A} (x ∷ xs) ys zs = ap (λ (l : List A). x ∷ l) (append_assoc xs ys zs)

pub append_nil : {A : Type 0} (xs : List A) → xs ++ [] ≡ xs
append_nil [] = refl
append_nil {A} (x ∷ xs) = ap (λ (l : List A). x ∷ l) (append_nil xs)

abbrev body_of : ℕ → List ℕ → Option (Bytes × List ℕ)
body_of size rest = if ltb max_message_length size || size == 0 then none else read_full size rest

body_of-append :
    (bts rest : List ℕ)
    → 0 < length bts
    → length bts ≤ max_message_length
    → body_of (length bts) (bts ++ rest) ≡ some (bts, rest)
body_of-append bts rest h k =
    let fits : (ltb max_message_length (length bts) || length bts == 0) ≡ false = ground arith in
    rw fits (read_full-append bts rest)

pub read_frame-write_frame :
    (bts rest : List ℕ)
    → 0 < length bts
    → length bts ≤ max_message_length
    → read_frame (write_frame bts ++ rest) ≡ some (bts, rest)
unfolding read_frame write_frame
read_frame-write_frame bts rest h k =
    let size = length bts in
    let fits : size % 2 ^ 32 ≡ size = omega (arith, k) in
    let header = little_endian 4 size in
    let four : read_full 4 (header ++ (bts ++ rest)) ≡ some (header, bts ++ rest) =
      subst (λ (n : ℕ). read_full n (header ++ (bts ++ rest)) ≡ some (header, bts ++ rest))
        (length-little_endian 4 size) (read_full-append header (bts ++ rest)) in
    let number : of_little_endian header ≡ size =
      of_little_endian-little_endian 4 size (omega (arith, k)) in
    rw (fits, append_assoc header bts rest, four, number) (body_of-append bts rest h k)

-- What is left of a stream of `total` bytes behind a read of at least `n`.
abbrev pub Leaves : ℕ → ℕ → Option (Bytes × List ℕ) → Type 0
Leaves n total none = Unit
Leaves n total (some (bts, rest)) = n + length rest ≤ total

read_full-Leaves : (n : ℕ) (stream : List ℕ) → Leaves n (length stream) (read_full n stream)
unfolding read_full
read_full-Leaves zero stream = omega arith
read_full-Leaves (suc n) [] = tt
read_full-Leaves (suc n) (b ∷ stream) =
    let ih = read_full-Leaves n stream in
    elim (Option-cases (read_full n stream)) [
      | inl e ↦ rw e tt
      | inr ((bts, rest), e) ↦ rw e (omega (arith, rw e at ih))
    ]

Leaves-weaken :
    (o : Option (Bytes × List ℕ)) (n n' total total' : ℕ)
    → n' + total ≤ total' + n
    → Leaves n total o
    → Leaves n' total' o
Leaves-weaken none n n' total total' h k = tt
Leaves-weaken (some (bts, rest)) n n' total total' h k = omega (arith, h, k)

pub read_frame-Leaves : (stream : List ℕ) → Leaves 4 (length stream) (read_frame stream)
unfolding read_frame
read_frame-Leaves stream =
    let four = read_full-Leaves 4 stream in
    elim (Option-cases (read_full 4 stream)) [
      | inl e ↦ rw e tt
      | inr ((header, rest), e) ↦
          let size = of_little_endian header in
          rw e (
            if_cases (Leaves 4 (length stream)) (ltb max_message_length size || size == 0) none
              (read_full size rest) (λ _. tt)
              (λ _.
                Leaves-weaken (read_full size rest) size 4 (length rest) (length stream)
                  (omega (arith, rw e at four)) (read_full-Leaves size rest)))
    ]
