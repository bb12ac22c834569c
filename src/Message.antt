-- ===== src/Message.antt =====
-- message.go and the data of message.proto: signed messages, axes of public keys, identities.
-- A fixed array of bytes is the number that its big-endian digits stand for, so that equality
-- and the lexicographic order of arrays are those of the numbers: PubKeyAxis is below 2 ^ 256.
pub mod Axis
pub mod Signing
pub mod Preimage
use bdls.Base.{ℕ, List, [], Option, none}

-- A byte slice that is not nil.
abbrev pub Bytes : Type 0
Bytes = List ℕ

-- `State`: a byte slice, which may be nil.
abbrev pub State : Type 0
State = Option Bytes

pub data MessageType : Type 0 where
  nop round_change lock select commit lock_release decide resync : MessageType
  other : ℕ → MessageType  -- any further value of the int32

pub record PublicKey : Type 0 where
  pub x : ℕ
  pub y : ℕ

pub record SignedProto : Type 0 where
  pub version : ℕ  -- uint32
  pub message : Bytes
  pub x : ℕ  -- PubKeyAxis
  pub y : ℕ  -- PubKeyAxis
  pub r : Bytes
  pub s : Bytes

pub record Message : Type 0 where
  pub kind : MessageType  -- the field `Type`
  pub height : ℕ  -- uint64
  pub round : ℕ  -- uint64
  pub state : State
  pub proof : List SignedProto
  pub lock_release : Option SignedProto

-- `var m Message`.
abbrev pub empty_message : Message
empty_message = record {
  kind = MessageType.nop;
  height = 0;
  round = 0;
  state = none;
  proof = [];
  lock_release = none;
}

abbrev pub protocol_version : ℕ
protocol_version = 1

abbrev pub size_axis : ℕ
size_axis = 32
