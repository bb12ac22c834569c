-- ===== src/Agent/TcpAgent.antt =====
-- TCPAgent of tcp_peer.go: the peers of an agent, and its calls of the consensus.
use Prim.Native.String.{String}
use text.Mathlib.Text.{◌==◌ as str_eq}
use bdls.Base.{
  ℕ, suc, List, [], ◌∷◌, ◌++◌, map, Option, none, some, Bool, true, false, if◌then◌else◌, ◌==◌,
}
use bdls.Message.{Bytes, State}
use bdls.Message.Signing.{PrivateKey}
use bdls.Consensus.State.{Consensus, Setup, Peer}
use bdls.Consensus.Peers.{join, leave, current_state}
use bdls.Consensus.Proposals.{propose}
use bdls.Consensus.Receive.{receive_message}
use bdls.Consensus.Update.{update as update_consensus}
use bdls.Agent.{Gossip, TcpPeer, Suite, Call, returned, panicked}
use bdls.Agent.Handshake.{Session, ◌>>=◌, get_public_key, handle_gossip}

-- `TCPAgent`. A *TCPPeer is a reference into `heap`, since the agent and the goroutines of the
-- connection share the peer.
pub record TcpAgent : Type 0 where
  pub consensus : Consensus
  pub private_key : PrivateKey
  pub peers : List ℕ
  pub heap : ℕ → TcpPeer
  pub consensus_messages : List Bytes
  pub closed : Bool  -- `die`

-- `NewTCPAgent`.
unfoldable pub new_tcp_agent : Consensus → PrivateKey → (ℕ → TcpPeer) → TcpAgent
new_tcp_agent consensus key heap = record {
  consensus = consensus;
  private_key = key;
  peers = [];
  heap = heap;
  consensus_messages = [];
  closed = false;
}

-- What the consensus sees of a peer at some time.
unfoldable pub as_peer : TcpPeer → Peer
unfolding get_public_key
as_peer p = record { addr = p.addr; key = get_public_key p }

-- `AddPeer`, with its verdict. The peer is appended also where the consensus does not let it join.
unfoldable pub add_peer : TcpAgent → ℕ → TcpAgent × Bool
unfolding as_peer
add_peer a p =
    let (c, joined) = join a.consensus (as_peer (a.heap p)) in
    if a.closed then (a, false) else (record a { consensus = c; peers = a.peers ++ p ∷ [] }, joined)

-- The list without the first peer at an address, and whether there was one.
unfoldable pub remove_ref : (ℕ → TcpPeer) → String → List ℕ → List ℕ × Bool
remove_ref heap addr [] = ([], false)
remove_ref heap addr (q ∷ qs) =
    let rest = remove_ref heap addr qs in
    if str_eq addr (heap q).addr then (qs, true) else (q ∷ rest.0, rest.1)

-- `RemovePeer` once it is known whether a peer stands at the address.
abbrev pub forget : TcpAgent → String → List ℕ × Bool → TcpAgent × Bool
forget a addr (refs, false) = (a, false)
forget a addr (refs, true) =
    let (c, left) = leave a.consensus addr in (record a { consensus = c; peers = refs }, left)

-- `RemovePeer`, with its verdict.
unfoldable pub remove_peer_at : TcpAgent → String → TcpAgent × Bool
unfolding remove_ref
remove_peer_at a addr = forget a addr (remove_ref a.heap addr a.peers)

-- `agent.peers[k].Close()` for each of them.
unfoldable pub close_all : List ℕ → (ℕ → TcpPeer) → ℕ → TcpPeer
close_all [] heap q = heap q
close_all (p ∷ ps) heap q =
    let rest = close_all ps heap q in if p == q then record rest { died = true } else rest

-- `Close`, which does nothing the second time. The RemovePeer of each peer runs later.
unfoldable pub close_agent : TcpAgent → TcpAgent
unfolding close_all
close_agent a = if a.closed then a else record a { closed = true; heap = close_all a.peers a.heap }

-- The keys that the consensus sees now: each of its peers is one of the agent's at that address.
unfoldable pub present : TcpAgent → List ℕ → Peer → Peer
unfolding as_peer
present a [] q = q
present a (p ∷ ps) q =
    let rest = present a ps q in if str_eq q.addr (a.heap p).addr then as_peer (a.heap p) else rest

unfoldable pub refreshed : TcpAgent → Consensus
unfolding present
refreshed a = record a.consensus { peers = map (present a a.peers) a.consensus.peers }

module _ (s : Setup) where
  abbrev pub with_consensus : TcpAgent → Option Consensus → Option TcpAgent
  with_consensus a none = none
  with_consensus a (some c) = some (record a { consensus = c })

  -- `Update`: nothing on an agent that is closed, and no result where the consensus panics. `fuel`
  -- is for the queue of the consensus.
  unfoldable pub update_agent : ℕ → TcpAgent → ℕ → Option TcpAgent
  unfolding refreshed
  update_agent fuel a now =
      if a.closed then some a else with_consensus a (update_consensus s fuel (refreshed a) now)

  -- `Propose`.
  unfoldable pub propose_to : TcpAgent → State → TcpAgent
  propose_to a st = record a { consensus = propose s a.consensus st }

  -- `GetLatestState`.
  unfoldable pub get_latest_state : TcpAgent → ℕ × ℕ × State
  get_latest_state a = current_state a.consensus

  -- The loop of `inputConsensusMessage` over the messages; `clock` is the time at each of them, and
  -- `n` counts them.
  unfoldable pub input_all : ℕ → (ℕ → ℕ) → ℕ → TcpAgent → List Bytes → Option TcpAgent
  unfolding refreshed
  input_all fuel clock n a [] = some a
  input_all fuel clock n a (bts ∷ ms) =
      with_consensus a (receive_message s fuel (refreshed a) bts (clock n)) >>= λ b.
      input_all fuel clock (suc n) b ms

  -- `inputConsensusMessage` after a notification.
  unfoldable pub input_consensus_message : ℕ → (ℕ → ℕ) → TcpAgent → Option TcpAgent
  unfolding input_all
  input_consensus_message fuel clock a =
      input_all fuel clock 0 (record a { consensus_messages = [] }) a.consensus_messages

-- A peer of the agent with the agent's queue, as the goroutine of its connection sees them.
abbrev pub session : TcpAgent → ℕ → Session
session a p = record { peer = a.heap p; inbox = a.consensus_messages }

abbrev pub settle_session : TcpAgent → ℕ → Session → TcpAgent
settle_session a p c = record a {
  heap = λ q. if p == q then c.peer else a.heap q;
  consensus_messages = c.inbox;
}

abbrev pub settle_call : TcpAgent → ℕ → Call Session → Call TcpAgent
settle_call a p (returned c e) = returned (settle_session a p c) e
settle_call a p panicked = panicked

-- A message that peer `p` of the agent has read.
unfoldable pub hear : Suite → TcpAgent → ℕ → Gossip → Call TcpAgent
hear suite a p g = settle_call a p (handle_gossip suite a.private_key (session a p) g)
