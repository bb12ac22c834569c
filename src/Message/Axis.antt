-- ===== src/Message/Axis.antt =====
-- PubKeyAxis and Identity of message.go: arrays of 32 and 64 bytes, as numbers.
use bdls.Base.{
  ℕ, zero, suc, ◌+◌, ◌*◌, ◌/◌, ◌%◌, ◌^◌, ◌<◌, ◌≡◌, refl, ap, sym, ◌∙◌, List, [], ◌∷◌, ◌++◌, arith,
  Outcome, ok, err, panic, ltb, if◌then◌else◌, ◌&&◌, length, length-append,
}
use bdls.Errors.{Error}
use native.Mathlib.Nat.{pow-suc}

-- The number of a big-endian run of bytes behind the digits `acc`.
unfoldable pub of_bytes : ℕ → List ℕ → ℕ
of_bytes acc [] = acc
of_bytes acc (b ∷ bs) = of_bytes (acc * 256 + b) bs

-- The low `k` bytes of a number, big-endian: the array that the number stands for.
unfoldable pub to_bytes : ℕ → ℕ → List ℕ
to_bytes zero n = []
to_bytes (suc k) n = to_bytes k (n / 256) ++ (n % 256) ∷ []

-- `(t PubKeyAxis) Marshal`, `MarshalTo`: the 32 bytes.
unfoldable pub axis_marshal : ℕ → List ℕ
axis_marshal t = to_bytes 32 t

-- `(t *PubKeyAxis) Unmarshal`: the bytes go to the end of the array `t`; those in front of them
-- stay as they were.
unfoldable pub axis_unmarshal : ℕ → List ℕ → Outcome ℕ
axis_unmarshal t bs =
    if ltb 32 (length bs) then err Error.pub_key else ok (of_bytes (t / 256 ^ length bs) bs)

-- 2 ^ 256, above every axis.
abbrev pub axis_bound : ℕ
axis_bound = 2 ^ 256

-- The identity of two axes: the bytes of X, then those of Y.
unfoldable pub join_axes : ℕ → ℕ → ℕ
join_axes x y = x * axis_bound + y

-- `DefaultPubKeyToIdentity`: a coordinate of more than 32 bytes panics.
unfoldable pub default_pub_key_to_identity : ℕ → ℕ → Outcome ℕ
unfolding join_axes
default_pub_key_to_identity x y =
    if ltb x axis_bound && ltb y axis_bound then ok (join_axes x y) else panic

pub length-to_bytes : (k n : ℕ) → length (to_bytes k n) ≡ k
unfolding to_bytes
length-to_bytes zero n = refl
length-to_bytes (suc k) n =
    omega
      (arith, length-append (to_bytes k (n / 256)) ((n % 256) ∷ []), length-to_bytes k (n / 256))

of_bytes-append :
    (acc : ℕ) (bs : List ℕ) (b : ℕ) → of_bytes acc (bs ++ b ∷ []) ≡ of_bytes acc bs * 256 + b
unfolding of_bytes
of_bytes-append acc [] b = refl
of_bytes-append acc (c ∷ bs) b = of_bytes-append (acc * 256 + c) bs b

div-lt-pow : (k n : ℕ) → n < 256 ^ suc k → n / 256 < 256 ^ k
div-lt-pow k n h = let e = pow-suc 256 k in omega (arith, e)

pub of_bytes-to_bytes : (k n : ℕ) → n < 256 ^ k → of_bytes 0 (to_bytes k n) ≡ n
unfolding to_bytes of_bytes
of_bytes-to_bytes zero n h = omega arith
of_bytes-to_bytes (suc k) n h = omega (
  arith,
  of_bytes-append 0 (to_bytes k (n / 256)) (n % 256),
  of_bytes-to_bytes k (n / 256) (div-lt-pow k n h),
)

pub to_bytes-injective :
    (k m n : ℕ) → m < 256 ^ k → n < 256 ^ k → to_bytes k m ≡ to_bytes k n → m ≡ n
to_bytes-injective k m n hm hn e =
    sym (of_bytes-to_bytes k m hm) ∙ ap (of_bytes 0) e ∙ of_bytes-to_bytes k n hn

-- An axis below 2 ^ 256 that is marshalled and read into a fresh array comes back as it was.
pub axis_unmarshal-marshal : (t : ℕ) → t < axis_bound → axis_unmarshal 0 (axis_marshal t) ≡ ok t
unfolding axis_unmarshal axis_marshal
axis_unmarshal-marshal t h =
    rw (length-to_bytes 32 t) (ap ok (of_bytes-to_bytes 32 t (omega (arith, h))))
