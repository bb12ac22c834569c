-- ===== src/Consensus/Peers.antt =====
-- Join and Leave of consensus.go, and the accessors.
use Prim.Native.String.{String}
use text.Mathlib.Text.{◌==◌ as str_eq}
use bdls.Base.{ℕ, List, [], ◌∷◌, ◌++◌, Option, Bool, true, false, if◌then◌else◌, any_of}
use bdls.Message.{State, SignedProto}
use bdls.Consensus.State.{Consensus, Peer}

-- `Join`, with its verdict.
unfoldable pub join : Consensus → Peer → Consensus × Bool
join c p =
    if any_of (λ (q : Peer). str_eq p.addr q.addr) c.peers
    then (c, false)
    else (record c { peers = c.peers ++ p ∷ [] }, true)

-- The list without the first peer at an address, and whether there was one.
unfoldable pub remove_peer : String → List Peer → List Peer × Bool
remove_peer addr [] = ([], false)
remove_peer addr (p ∷ ps) =
    let rest = remove_peer addr ps in
    if str_eq addr p.addr then (ps, true) else (p ∷ rest.0, rest.1)

-- `Leave`, with its verdict.
unfoldable pub leave : Consensus → String → Consensus × Bool
leave c addr = let (peers, found) = remove_peer addr c.peers in (record c { peers = peers }, found)

-- `CurrentState`: height, round and state.
unfoldable pub current_state : Consensus → ℕ × ℕ × State
current_state c = (c.latest_height, c.latest_round, c.latest_state)

-- `CurrentProof`.
unfoldable pub current_proof : Consensus → Option SignedProto
current_proof c = c.latest_proof

-- `SetLatency`.
unfoldable pub set_latency : Consensus → ℕ → Consensus
set_latency c latency = record c { latency = latency }
