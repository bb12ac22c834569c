-- ===== src/Message/Signing.antt =====
-- What a signature covers: SignedProto.Hash, Sign, Verify, PublicKey of message.go. The hash, the
-- signature scheme and the protobuf coding are parameters.

use bdls.Base.{
  ℕ, zero, suc, ◌/◌, ◌%◌, ◌^◌, List, [], ◌∷◌, ◌++◌, Option, Bool, true, ◌&&◌, ◌≡◌, ltb, length,
}
use bdls.Message.{Bytes, Message, SignedProto, PublicKey, protocol_version}
use bdls.Message.Axis.{axis_bound, to_bytes, of_bytes}

-- A key whose coordinates take 32 bytes each, as those of S256 do: on any other, `Sign` and
-- `DefaultPubKeyToIdentity` panic when they fill a PubKeyAxis.
pub record PrivateKey : Type 0 where
  pub secret : ℕ
  pub public_key : PublicKey
  pub fits : (ltb public_key.x axis_bound && ltb public_key.y axis_bound) ≡ true

-- Code that this repository only calls. `ecdsa_sign` takes the position in the stream of random
-- numbers, since two signatures of one text differ, and gives the bytes of r and of s.
pub record Primitives : Type 0 where
  pub blake256 : Bytes → Bytes
  pub ecdsa_sign : ℕ → PrivateKey → Bytes → Bytes × Bytes
  pub ecdsa_verify : PublicKey → Bytes → ℕ → ℕ → Bool
  pub marshal_message : Message → Bytes
  pub unmarshal_message : Bytes → Option Message
  pub marshal_signed : SignedProto → Bytes
  pub unmarshal_signed : Bytes → Option SignedProto

-- `binary.Write(hash, binary.LittleEndian, n)` of the low `k` bytes of a number.
unfoldable pub little_endian : ℕ → ℕ → List ℕ
little_endian zero n = []
little_endian (suc k) n = (n % 256) ∷ little_endian k (n / 256)

-- "BDLS_CONSENSUS_SIGNATURE"
abbrev pub signature_prefix : List ℕ
signature_prefix =
    b'B' ∷ b'D' ∷ b'L' ∷ b'S' ∷ b'_' ∷ b'C' ∷ b'O' ∷ b'N' ∷ b'S' ∷ b'E' ∷ b'N' ∷ b'S' ∷ b'U' ∷ b'S'
    ∷ b'_' ∷ b'S' ∷ b'I' ∷ b'G' ∷ b'N' ∷ b'A' ∷ b'T' ∷ b'U' ∷ b'R' ∷ b'E' ∷ []

-- What `Hash` feeds the digest, in order.
unfoldable pub preimage : SignedProto → List ℕ
preimage sp =
    signature_prefix
    ++ (little_endian 4 sp.version
        ++ (to_bytes 32 sp.x
            ++ (to_bytes 32 sp.y ++ (little_endian 4 (length sp.message % 2 ^ 32) ++ sp.message))))

-- `PublicKey`.
abbrev pub public_key : SignedProto → PublicKey
public_key sp = record { x = sp.x; y = sp.y }

module _ (lib : Primitives) where
  unfoldable pub hash : SignedProto → Bytes
  unfolding preimage
  hash sp = lib.blake256 (preimage sp)

  -- `Verify`.
  unfoldable pub verify : SignedProto → Bool
  unfolding hash
  verify sp = lib.ecdsa_verify (public_key sp) (hash sp) (of_bytes 0 sp.r) (of_bytes 0 sp.s)

  -- The unsigned envelope of a message: what `Sign` fills in before it hashes.
  unfoldable pub unsigned : Message → PrivateKey → SignedProto
  unsigned m key = record {
    version = protocol_version;
    message = lib.marshal_message m;
    x = key.public_key.x;
    y = key.public_key.y;
    r = [];
    s = [];
  }

  -- `Sign`, at a position of the stream of random numbers.
  unfoldable pub sign : ℕ → Message → PrivateKey → SignedProto
  unfolding unsigned hash
  sign rand m key =
      let sp = unsigned m key in
      let (r, s) = lib.ecdsa_sign rand key (hash sp) in record sp { r = r; s = s }
