-- ===== src/Agent.antt =====
-- The messages and the state of agent-tcp: gossip.proto, errors.go and the types of tcp_peer.go.
pub mod Numbers
pub mod Handshake
pub mod Framing
pub mod Frames
pub mod Streams
pub mod Sound
pub mod Authentic
pub mod Answers
pub mod Trusted
pub mod Crashes
pub mod TcpAgent
pub mod Addresses
pub mod Fixed
pub mod Members
pub mod Forgotten
use Prim.Native.String.{String}
use bdls.Base.{ℕ, ◌*◌, ◌^◌, List, [], Option, none, Bool, false}
use bdls.Message.{Bytes, PublicKey}
use bdls.Message.Signing.{PrivateKey}

pub data CommandType : Type 0 where
  nop key_auth_init key_auth_challenge key_auth_challenge_reply consensus : CommandType
  other : ℕ → CommandType  -- any further value of the int32

pub record Gossip : Type 0 where
  pub command : CommandType
  pub message : Bytes

pub record KeyAuthInit : Type 0 where
  pub x : Bytes
  pub y : Bytes

pub record KeyAuthChallenge : Type 0 where
  pub x : Bytes
  pub y : Bytes
  pub challenge : Bytes

pub record KeyAuthChallengeReply : Type 0 where
  pub hmac : Bytes

-- errors.go of the agent, and `unmarshal` for whatever error the protobuf decoder returns.
pub data AgentError : Type 0 where
  local_key_auth_init : AgentError
  key_not_on_curve : AgentError
  peer_key_auth_init : AgentError
  peer_key_auth_challenge : AgentError
  peer_key_auth_challenge_response : AgentError
  peer_authenticated_failed : AgentError
  message_length_exceed : AgentError
  unmarshal : AgentError

-- The states of the peer's proof of its key.
pub data PeerStatus : Type 0 where
  peer_not_authenticated peer_authkey_received peer_authenticated : PeerStatus
  peer_authenticated_failed : PeerStatus

-- The states of our own proof towards the peer.
pub data LocalStatus : Type 0 where
  local_not_authenticated local_auth_key_sent local_challenge_accepted : LocalStatus

abbrev pub challenge_size : ℕ
challenge_size = 1024

abbrev pub message_length : ℕ
message_length = 4

abbrev pub max_message_length : ℕ
max_message_length = 32 * 1024 * 1024

-- `TCPPeer`, without the channels that wake its goroutines. A nil slice is the empty one.
pub record TcpPeer : Type 0 where
  pub addr : String  -- `RemoteAddr().String()`
  pub peer_auth_status : PeerStatus
  pub peer_public_key : Option PublicKey
  pub local_auth_state : LocalStatus
  pub hmac : Bytes
  pub consensus_messages : List Bytes
  pub agent_messages : List Bytes
  pub died : Bool
  pub draws : ℕ  -- how often random numbers have been drawn for it

-- `NewTCPPeer`.
unfoldable pub new_tcp_peer : String → TcpPeer
new_tcp_peer addr = record {
  addr = addr;
  peer_auth_status = PeerStatus.peer_not_authenticated;
  peer_public_key = none;
  local_auth_state = LocalStatus.local_not_authenticated;
  hmac = [];
  consensus_messages = [];
  agent_messages = [];
  died = false;
  draws = 0;
}

-- Code that the agent only calls. The curve and the keyed hash are those of the libraries, and a
-- random value depends on the number of the draw. Where a call gives none it panics, or the code
-- does: the curve panics on a coordinate of more than 32 bytes.
pub record Suite : Type 0 where
  pub is_on_curve : ℕ → ℕ → Option Bool
  pub scalar_mult : ℕ → ℕ → Bytes → Option (ℕ × ℕ)
  pub generate_key : ℕ → Option PrivateKey
  pub read_random : ℕ → ℕ → Option Bytes  -- the number of the draw, the size
  pub keyed_hash : Bytes → Bytes → Option Bytes  -- the key, the text
  pub marshal_gossip : Gossip → Bytes
  pub unmarshal_gossip : Bytes → Option Gossip
  pub marshal_init : KeyAuthInit → Bytes
  pub unmarshal_init : Bytes → Option KeyAuthInit
  pub marshal_challenge : KeyAuthChallenge → Bytes
  pub unmarshal_challenge : Bytes → Option KeyAuthChallenge
  pub marshal_reply : KeyAuthChallengeReply → Bytes
  pub unmarshal_reply : Bytes → Option KeyAuthChallengeReply

-- What a method of the agent comes to: the state behind it with the error that it returns, or a
-- panic.
pub data Call {ℓ} (A : Type ℓ) : Type ℓ where
  returned : A → Option AgentError → Call A
  panicked : Call A
