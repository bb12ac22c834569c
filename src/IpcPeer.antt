-- ===== src/IpcPeer.antt =====
-- ipc_peer.go: a peer in the same process, which hands messages to its consensus after a delay.
pub mod Runs
pub mod Counts
use bdls.Base.{
  ℕ, ◌+◌, List, [], ◌∷◌, Option, none, some, Bool, true, false, ltb, length, if◌then◌else◌, u64,
  sign_bit,
}
use bdls.Message.{Bytes, State, PublicKey}
use bdls.Consensus.State.{Consensus, Setup}
use bdls.Consensus.Timing.{time_add}
use bdls.Consensus.Peers.{current_state}
use bdls.Consensus.Proposals.{propose}
use bdls.Consensus.Receive.{receive_message}
use bdls.Consensus.Update.{update as update_consensus}

-- `IPCPeer`. Counters and durations are the bit patterns of their int64.
pub record IpcPeer : Type 0 where
  pub consensus : Consensus
  pub latency : ℕ
  pub died : Bool  -- `die` is closed
  pub msg_count : ℕ
  pub bytes_count : ℕ
  pub min_latency : ℕ
  pub max_latency : ℕ
  pub total_latency : ℕ

-- `NewIPCPeer`: the least latency starts at math.MaxInt64.
unfoldable pub new_ipc_peer : Consensus → ℕ → IpcPeer
new_ipc_peer c latency = record {
  consensus = c;
  latency = latency;
  died = false;
  msg_count = 0;
  bytes_count = 0;
  min_latency = 9223372036854775807;
  max_latency = 0;
  total_latency = 0;
}

-- `a < b` on int64.
abbrev pub signed_less : ℕ → ℕ → Bool
signed_less a b = ltb (u64 (a + sign_bit)) (u64 (b + sign_bit))

-- What the scheduler is given: `txDelay` of a message and its delay, or `p.Update`.
pub data Work : Type 0 where
  delivers : (msg : Bytes) (delay : ℕ) → Work
  updates : Work

pub record Scheduled : Type 0 where
  pub work : Work
  pub ts : ℕ

-- `delay`: `noise` is time.Duration(0.1 * rand.NormFloat64() * float64(p.latency)).
abbrev pub delay_of : IpcPeer → ℕ → ℕ
delay_of p noise = u64 (noise + p.latency)

-- `Send`.
unfoldable pub send_message : IpcPeer → Bytes → ℕ → ℕ → Scheduled
send_message p msg noise now = record {
  work = delivers msg (delay_of p noise);
  ts = time_add now (delay_of p noise);
}

-- `txDelay` before it calls the consensus.
unfoldable pub count_message : IpcPeer → Bytes → ℕ → IpcPeer
count_message p msg delay = record p {
  min_latency = if signed_less delay p.min_latency then delay else p.min_latency;
  max_latency = if signed_less p.max_latency delay then delay else p.max_latency;
  total_latency = u64 (p.total_latency + delay);
  msg_count = u64 (p.msg_count + 1);
  bytes_count = u64 (p.bytes_count + length msg);
}

-- `Close`.
unfoldable pub close_ipc_peer : IpcPeer → IpcPeer
close_ipc_peer p = record p { died = true }

-- `GetMessageCount`, `GetBytesCount`, `GetLatestState`, `GetLatencies`.
unfoldable pub get_message_count : IpcPeer → ℕ
get_message_count p = p.msg_count

unfoldable pub get_bytes_count : IpcPeer → ℕ
get_bytes_count p = p.bytes_count

unfoldable pub ipc_latest_state : IpcPeer → ℕ × ℕ × State
ipc_latest_state p = current_state p.consensus

unfoldable pub get_latencies : IpcPeer → ℕ × ℕ × ℕ
get_latencies p = (p.min_latency, p.max_latency, p.total_latency)

module _ (s : Setup) where
  -- `GetPublicKey`.
  unfoldable pub ipc_public_key : IpcPeer → PublicKey
  ipc_public_key p = s.private_key.public_key

  -- `Propose`.
  unfoldable pub propose_ipc_peer : IpcPeer → State → IpcPeer
  propose_ipc_peer p st = record p { consensus = propose s p.consensus st }

  abbrev pub behind_consensus : IpcPeer → Option Consensus → Option IpcPeer
  behind_consensus p none = none
  behind_consensus p (some c) = some (record p { consensus = c })

  -- `txDelay`: no result where the consensus panics. `fuel` is for the queue of the consensus.
  unfoldable pub deliver : ℕ → IpcPeer → Bytes → ℕ → ℕ → Option IpcPeer
  unfolding count_message
  deliver fuel p msg delay now =
      behind_consensus (count_message p msg delay) (receive_message s fuel p.consensus msg now)

  -- The peer behind the update of the consensus, and `p.Update` again in 20 ms.
  abbrev pub again_at : ℕ → IpcPeer → Option Consensus → Option (IpcPeer × List Scheduled)
  again_at later p none = none
  again_at later p (some c) =
      some (record p { consensus = c }, record { work = updates; ts = later + 20_000_000 } ∷ [])

  -- `Update`, with what it gives the scheduler; `now` and `later` are the two readings of the clock.
  unfoldable pub update_ipc_peer : ℕ → IpcPeer → ℕ → ℕ → Option (IpcPeer × List Scheduled)
  update_ipc_peer fuel p now later =
      if p.died then some (p, []) else again_at later p (update_consensus s fuel p.consensus now)
