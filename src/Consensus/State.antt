-- ===== src/Consensus/State.antt =====
-- The record `Consensus` of consensus.go. What no method assigns after `init` stands in `Setup`,
-- what the methods change in `Consensus`; pointers to rounds are references into `heap`.
use Prim.Native.Nat.{Ordering}
use Prim.Native.String.{String}
use bdls.Base.{ℕ, ◌+◌, ◌*◌, ◌-◌, ◌/◌, List, Option, Bool, true, false, ◌==◌, if◌then◌else◌}
use bdls.Message.{Bytes, State, Message, SignedProto, PublicKey}
use bdls.Message.Signing.{Primitives, PrivateKey}
use bdls.Round.{Round, Stage, Tuple}

-- PeerInterface of peer.go, as far as it is read: `RemoteAddr().String()` and `GetPublicKey()`.
pub record Peer : Type 0 where
  pub addr : String
  pub key : Option PublicKey

-- What leaves the object: a call of `messageOutCallback`, or of a peer's `Send`.
pub data Output : Type 0 where
  callback : Message → SignedProto → Output
  transmit : Peer → Bytes → Output

pub record Consensus : Type 0 where
  pub latest_state : State
  pub latest_height : ℕ  -- uint64
  pub latest_round : ℕ  -- uint64
  pub latest_proof : Option SignedProto
  pub unconfirmed : List State
  pub rounds : List ℕ  -- the list of rounds, as references
  pub heap : ℕ → Round  -- the round that a reference points to
  pub next_ref : ℕ  -- references from here on are not yet allocated
  pub current_round : ℕ  -- a reference
  pub rc_timeout : ℕ
  pub lock_timeout : ℕ
  pub commit_timeout : ℕ
  pub lock_release_timeout : ℕ
  pub locks : List Tuple
  pub latency : ℕ  -- a duration
  pub peers : List Peer
  pub loopback : List Bytes
  pub last_round_change_proof : Option (List SignedProto)
  pub outputs : List Output  -- what has left the object, in order
  pub rand : ℕ  -- how many signatures have been made

pub record Setup : Type 0 where
  pub lib : Primitives
  pub state_compare : State → State → Ordering  -- the sign of the int
  pub state_validate : State → Bool
  pub message_validator : Option (Consensus → Message → SignedProto → Bool)
  pub has_callback : Bool  -- `messageOutCallback != nil`
  pub pub_key_to_identity : PublicKey → ℕ
  pub state_hash : State → ℕ
  pub private_key : PrivateKey
  pub identity : ℕ
  pub participants : List ℕ
  pub num_identities : ℕ
  pub enable_commit_unicast : Bool
  pub fixed_leader : Option ℕ

-- `t`: (n - 1) / 3.
abbrev pub max_faulty : Setup → ℕ
max_faulty s = (s.num_identities - 1) / 3

-- `2*c.t()+1`.
abbrev pub quorum : Setup → ℕ
quorum s = 2 * max_faulty s + 1

-- `c.currentRound`, read through the pointer.
abbrev pub current : Consensus → Round
current c = c.heap c.current_round

abbrev pub write : (ℕ → Round) → ℕ → Round → ℕ → Round
write heap p r q = if p == q then r else heap q

-- An assignment through a pointer to a round.
abbrev pub set_round : Consensus → ℕ → Round → Consensus
set_round c p r = record c { heap = write c.heap p r }

-- `c.currentRound.Stage = st`.
abbrev pub set_stage : Consensus → Stage → Consensus
set_stage c st = set_round c c.current_round (record (current c) { stage = st })

-- `compare(a, b) < 0`.
abbrev pub is_lt : Ordering → Bool
is_lt Ordering.lt = true
is_lt _ = false
