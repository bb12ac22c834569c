-- ===== src/Samples/Toy.antt =====
-- A group of four participants over toy codes: a key is its X axis, a signature repeats the key, and
-- a message is coded by its type, height, round and state alone.
use Prim.Native.Nat.{compare}
use bdls.Base.{
  ℕ, refl, arith, ◌%◌, ltb, ◌&&◌, ◌≡◌, List, [], ◌∷◌, Option, none, some, true, false, ◌==◌,
  if◌then◌else◌,
}
use bdls.Message.{Bytes, State, Message, MessageType, SignedProto, empty_message}
use bdls.Message.Axis.{axis_bound}
use bdls.Message.Signing.{Primitives}
use bdls.Consensus.State.{Setup, Consensus}
use bdls.Consensus.Config.{Config, init}

abbrev pub kind_of : ℕ → MessageType
kind_of n =
    if n == 1
    then MessageType.round_change
    else if n == 2
    then MessageType.lock
    else if n == 3
    then MessageType.select
    else if n == 4
    then MessageType.commit
    else if n == 6
    then MessageType.decide
    else MessageType.nop

abbrev pub tag_of : MessageType → ℕ
tag_of MessageType.round_change = 1
tag_of MessageType.lock = 2
tag_of MessageType.select = 3
tag_of MessageType.commit = 4
tag_of MessageType.decide = 6
tag_of _ = 0

abbrev body : State → Bytes
body none = []
body (some b) = b

abbrev pub state_of : Bytes → State
state_of [] = none
state_of (b ∷ bs) = some (b ∷ bs)

abbrev pub decode : Bytes → Option Message
decode (kind ∷ height ∷ round ∷ rest) = some (record empty_message {
  kind = kind_of kind;
  height = height;
  round = round;
  state = state_of rest;
})
decode _ = none

abbrev pub decode_signed : Bytes → Option SignedProto
decode_signed (x ∷ message) =
    some (record { version = 1; message = message; x = x; y = 0; r = x ∷ []; s = [] })
decode_signed _ = none

abbrev pub toy_lib : Primitives
toy_lib = record {
  blake256 = λ b. b;
  ecdsa_sign = λ rand key h. (key.public_key.x ∷ [], []);
  ecdsa_verify = λ pk h r s. pk.x == r;
  marshal_message = λ m. tag_of m.kind ∷ m.height ∷ m.round ∷ body m.state;
  unmarshal_message = decode;
  marshal_signed = λ sp. sp.x ∷ sp.message;
  unmarshal_signed = decode_signed;
}

abbrev pub number : State → ℕ
number none = 0
number (some []) = 0
number (some (b ∷ bs)) = b

pub small_fits : (n : ℕ) → (ltb (n % 256) axis_bound && ltb 0 axis_bound) ≡ true
small_fits n = ground arith

-- Participant `me` of the group 1, 2, 3, 4; states compare by their first byte.
abbrev pub toy : ℕ → Setup
toy me = record {
  lib = toy_lib;
  state_compare = λ a b. compare (number a) (number b);
  state_validate = λ st. true;
  message_validator = none;
  has_callback = false;
  pub_key_to_identity = λ pk. pk.x;
  state_hash = number;
  private_key = record {
    secret = 0;
    public_key = record { x = me % 256; y = 0 };
    fits = small_fits me;
  };
  identity = me;
  participants = 1 ∷ 2 ∷ 3 ∷ 4 ∷ [];
  num_identities = 4;
  enable_commit_unicast = false;
  fixed_leader = none;
}

-- A message of kind `tag` by `who`, for the state 7.
abbrev pub signed_by : ℕ → ℕ → ℕ → ℕ → SignedProto
signed_by who tag height round = record {
  version = 1;
  message = tag ∷ height ∷ round ∷ 7 ∷ [];
  x = who;
  y = 0;
  r = who ∷ [];
  s = [];
}

abbrev pub by_three : ℕ → ℕ → ℕ → List SignedProto
by_three tag height round =
    signed_by 1 tag height round ∷ signed_by 2 tag height round ∷ signed_by 3 tag height round ∷ []

abbrev pub with_proof : MessageType → ℕ → ℕ → List SignedProto → Message
with_proof kind height round proof = record empty_message {
  kind = kind;
  height = height;
  round = round;
  state = some (7 ∷ []);
  proof = proof;
}

abbrev pub toy_config : Config
toy_config = record {
  epoch = 1;
  current_height = 0;
  key = some (record { secret = 0; public_key = record { x = 1; y = 0 }; fits = refl });
  participants = 1 ∷ 2 ∷ 3 ∷ 4 ∷ [];
  enable_commit_unicast = false;
  state_compare = some (λ a b. compare (number a) (number b));
  state_validate = some (λ st. true);
  message_validator = none;
  has_callback = false;
  pub_key_to_identity = some (λ pk. pk.x);
}

-- Participant `me` behind `init`.
abbrev pub started : ℕ → Consensus
started me = init (toy me) toy_config
