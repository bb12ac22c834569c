-- ===== src/Agent/Numbers.antt =====
-- big.Int's Bytes and SetBytes, as tcp_peer.go uses them for coordinates and keys.
use bdls.Base.{
  ℕ, zero, suc, ◌+◌, ◌*◌, ◌/◌, ◌%◌, ◌≤◌, ◌≡◌, refl, [], ◌∷◌, ◌++◌, true, false, arith, ◌==◌, ==→eq,
  Bool-cases, inl, inr,
}
use bdls.Message.{Bytes}
use bdls.Message.Axis.{of_bytes}

-- The digits of a number to the base 256, the highest first, without leading zeros.
unfoldable pub digits : ℕ → ℕ → Bytes
digits zero n = []
digits (suc fuel) n = elim (n == 0) [ true ↦ [] | false ↦ digits fuel (n / 256) ++ (n % 256) ∷ [] ]

-- `n.Bytes()`. A number has fewer digits than it counts.
unfoldable pub big_bytes : ℕ → Bytes
unfolding digits
big_bytes n = digits n n

-- `big.NewInt(0).SetBytes(bs)`.
unfoldable pub set_bytes : Bytes → ℕ
set_bytes bs = of_bytes 0 bs

of_bytes-append :
    (acc : ℕ) (bs : Bytes) (b : ℕ) → of_bytes acc (bs ++ b ∷ []) ≡ of_bytes acc bs * 256 + b
unfolding of_bytes
of_bytes-append acc [] b = refl
of_bytes-append acc (c ∷ bs) b = of_bytes-append (acc * 256 + c) bs b

of_bytes-digits : (fuel n : ℕ) → n ≤ fuel → of_bytes 0 (digits fuel n) ≡ n
unfolding digits of_bytes
of_bytes-digits zero n h = omega arith
of_bytes-digits (suc fuel) n h = elim (Bool-cases (n == 0)) [
  | inl e ↦ rw (e, digits) (omega (arith, ==→eq n 0 e))
  | inr e ↦
      let smaller : n / 256 ≤ fuel = omega (arith, h) in
      rw (e, digits)
        (omega (
          arith,
          of_bytes-append 0 (digits fuel (n / 256)) (n % 256),
          of_bytes-digits fuel (n / 256) smaller,
        ))
]

pub set_bytes-big_bytes : (n : ℕ) → set_bytes (big_bytes n) ≡ n
unfolding set_bytes big_bytes
set_bytes-big_bytes n = of_bytes-digits n n (omega arith)
