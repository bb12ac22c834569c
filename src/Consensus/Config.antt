-- ===== src/Consensus/Config.antt =====
-- config.go, and NewConsensus and init of consensus.go.
use Prim.Native.Nat.{Ordering}
use bdls.Base.{
  ℕ, List, [], ◌∷◌, Option, none, some, Bool, true, Outcome, ok, err, ◌>>=◌, ◌>>◌, require, not,
  ltb, length, ◌≡◌, refl,
}
use bdls.Base.Assoc.{insert}
use bdls.Errors.{Error}
use bdls.Message.{State, Message, SignedProto, PublicKey}
use bdls.Message.Axis.{of_bytes, join_axes, default_pub_key_to_identity}
use bdls.Message.Signing.{Primitives, PrivateKey}
use bdls.Round.{Stage, new_round}
use bdls.Consensus.State.{Consensus, Setup, set_stage}
use bdls.Consensus.Timing.{default_consensus_latency, round_change_duration, time_add, is_zero}
use bdls.Consensus.Rounds.{switch_round}
use bdls.Consensus.Checks.{bytes_of}
use bdls.Consensus.Send.{broadcast_round_change}

pub record Config : Type 0 where
  pub epoch : ℕ
  pub current_height : ℕ
  pub key : Option PrivateKey
  pub participants : List ℕ
  pub enable_commit_unicast : Bool
  pub state_compare : Option (State → State → Ordering)
  pub state_validate : Option (State → Bool)
  pub message_validator : Option (Consensus → Message → SignedProto → Bool)
  pub has_callback : Bool
  pub pub_key_to_identity : Option (PublicKey → ℕ)

abbrev pub config_minimum_participants : ℕ
config_minimum_participants = 4

-- What `init` takes from a configuration that has passed.
pub record Functions : Type 0 where
  pub compare : State → State → Ordering
  pub validate : State → Bool
  pub key : PrivateKey

abbrev given {ℓ} : {A : Type ℓ} → Option A → Error → Outcome A
given none e = err e
given (some a) e = ok a

-- `VerifyConfig`, with the functions and the key that it finds set.
unfoldable pub verify_config : Config → Outcome Functions
verify_config c = do
  require (not (is_zero c.epoch)) Error.config_epoch
  compare ← given c.state_compare Error.config_state_compare
  validate ← given c.state_validate Error.config_state_validate
  key ← given c.key Error.config_private_key
  require (not (ltb (length c.participants) config_minimum_participants)) Error.config_participants
  ok (record { compare = compare; validate = validate; key = key })

-- `defaultHash`: the array of the digest, as a number.
unfoldable pub default_hash : Primitives → State → ℕ
default_hash lib st = of_bytes 0 (lib.blake256 (bytes_of st))

-- The map `ids` of `init`, whose length counts the individual identities.
unfoldable pub identities : List ℕ → List (ℕ × Bool) → List (ℕ × Bool)
identities [] acc = acc
identities (id ∷ ids) acc = identities ids (insert id true acc)

abbrev or_default : Option (PublicKey → ℕ) → PublicKey → ℕ
or_default none pk = join_axes pk.x pk.y
or_default (some f) pk = f pk

-- On the own key the default does not panic.
pub or_default-own :
    (key : PrivateKey)
    → default_pub_key_to_identity key.public_key.x key.public_key.y
      ≡ ok (or_default none key.public_key)
unfolding default_pub_key_to_identity
or_default-own key = rw key.fits refl

-- What `init` sets for good. The keys that `pubKeyToIdentity` meets are the own one, those of
-- signed messages, which are two arrays of 32 bytes, and those of peers, which have passed the test
-- of the curve; on all of them `DefaultPubKeyToIdentity` does not panic. `stateHash` is not part of
-- the configuration.
unfoldable pub setup_of : Primitives → Config → Functions → Setup
setup_of lib config f = record {
  lib = lib;
  state_compare = f.compare;
  state_validate = f.validate;
  message_validator = config.message_validator;
  has_callback = config.has_callback;
  pub_key_to_identity = or_default config.pub_key_to_identity;
  state_hash = default_hash lib;
  private_key = f.key;
  identity = or_default config.pub_key_to_identity f.key.public_key;
  participants = config.participants;
  num_identities = length (identities config.participants []);
  enable_commit_unicast = config.enable_commit_unicast;
  fixed_leader = none;
}

-- `new(Consensus)` at a height, with the default latency.
unfoldable pub blank : ℕ → Consensus
blank height = record {
  latest_state = none;
  latest_height = height;
  latest_round = 0;
  latest_proof = none;
  unconfirmed = [];
  rounds = [];
  heap = λ _. new_round 0;
  next_ref = 0;
  current_round = 0;
  rc_timeout = 0;
  lock_timeout = 0;
  commit_timeout = 0;
  lock_release_timeout = 0;
  locks = [];
  latency = default_consensus_latency;
  peers = [];
  loopback = [];
  last_round_change_proof = none;
  outputs = [];
  rand = 0;
}

-- `init`.
unfoldable pub init : Setup → Config → Consensus
unfolding blank
init s config =
    let c1 = set_stage (switch_round (blank config.current_height) 0) Stage.round_changing in
    let c2 = broadcast_round_change s c1 in
    record c2 { rc_timeout = time_add config.epoch (round_change_duration c2.latency 0) }

-- `NewConsensus`.
unfoldable pub new_consensus : Primitives → Config → Outcome (Setup × Consensus)
unfolding setup_of init
new_consensus lib config = do
  f ← verify_config config
  let s = setup_of lib config f
  ok (s, init s config)
