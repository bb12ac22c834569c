-- ===== src/Message/Preimage.antt =====
-- The layout of the bytes that SignedProto.Hash of message.go hashes.
use native.Mathlib.Nat.{pow-suc}
use bdls.Base.{
  ℕ, zero, suc, ◌/◌, ◌%◌, ◌^◌, ◌<◌, ◌≡◌, refl, sym, ap, ◌∙◌, List, [], ◌∷◌, ◌++◌, arith, length,
}
use bdls.Message.{SignedProto}
use bdls.Message.Axis.{to_bytes, length-to_bytes, to_bytes-injective, axis_bound}
use bdls.Message.Signing.{little_endian, signature_prefix, preimage}

-- Two texts with equal fronts of one length agree part by part.
append-injective {ℓ} :
    {A : Type ℓ} (xs ys us vs : List A)
    → length xs ≡ length ys
    → xs ++ us ≡ ys ++ vs
    → (xs ≡ ys) × (us ≡ vs)
append-injective [] [] us vs n e = (refl, e)
append-injective [] (y ∷ ys) us vs n e = absurd (omega arith)
append-injective (x ∷ xs) [] us vs n e = absurd (omega arith)
append-injective (x ∷ xs) (y ∷ ys) us vs n e =
    let rest = append-injective xs ys us vs (omega arith) (cc) in (ground (arith, rest), rest.1)

length-little_endian : (k n : ℕ) → length (little_endian k n) ≡ k
unfolding little_endian
length-little_endian zero n = refl
length-little_endian (suc k) n = ap suc (length-little_endian k (n / 256))

little_endian-injective :
    (k m n : ℕ) → m < 256 ^ k → n < 256 ^ k → little_endian k m ≡ little_endian k n → m ≡ n
unfolding little_endian
little_endian-injective zero m n hm hn e = omega arith
little_endian-injective (suc k) m n hm hn e =
    let rest =
      little_endian-injective k (m / 256) (n / 256) (omega (arith, pow-suc 256 k))
        (omega (arith, pow-suc 256 k)) (cc) in
    let low : m % 256 ≡ n % 256 = cc in omega (arith, rest, low)

-- The fields of a signed message that fit their machine types: a uint32, two arrays of 32 bytes.
pub record IsWellFormed (sp : SignedProto) : Type 0 where
  pub version_fits : sp.version < 2 ^ 32
  pub x_fits : sp.x < axis_bound
  pub y_fits : sp.y < axis_bound

-- Messages whose fields fit their types and whose hashed bytes agree have the same version, the
-- same key and the same content: the signature covers all of them, whatever the length of the
-- content.
pub preimage-injective :
    (p q : SignedProto)
    → IsWellFormed p
    → IsWellFormed q
    → preimage p ≡ preimage q
    → (p.version ≡ q.version) × (p.x ≡ q.x) × (p.y ≡ q.y) × (p.message ≡ q.message)
unfolding preimage
preimage-injective p q wp wq e =
    let (_, e1) = append-injective signature_prefix signature_prefix _ _ refl e in
    let (version, e2) =
      append-injective (little_endian 4 p.version) (little_endian 4 q.version) _ _
        (length-little_endian 4 p.version ∙ sym (length-little_endian 4 q.version)) e1 in
    let (x, e3) =
      append-injective (to_bytes 32 p.x) (to_bytes 32 q.x) _ _
        (length-to_bytes 32 p.x ∙ sym (length-to_bytes 32 q.x)) e2 in
    let (y, e4) =
      append-injective (to_bytes 32 p.y) (to_bytes 32 q.y) _ _
        (length-to_bytes 32 p.y ∙ sym (length-to_bytes 32 q.y)) e3 in
    let (_, message) =
      append-injective (little_endian 4 (length p.message % 2 ^ 32))
        (little_endian 4 (length q.message % 2 ^ 32)) _ _
        (length-little_endian 4 _ ∙ sym (length-little_endian 4 _)) e4 in
    (
      little_endian-injective 4 p.version q.version (omega (arith, wp.version_fits))
          (omega (arith, wq.version_fits)) version,
      to_bytes-injective 32 p.x q.x wp.x_fits wq.x_fits x,
      to_bytes-injective 32 p.y q.y wp.y_fits wq.y_fits y,
      message,
    )
