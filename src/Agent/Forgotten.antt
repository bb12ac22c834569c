-- ===== src/Agent/Forgotten.antt =====
-- All that can happen to a TCPAgent of tcp_peer.go, and what is left of a peer that is removed.
use Prim.Native.String.{String}
use text.Mathlib.Text.{◌==◌ as str_eq}
use mathlib.Core.Option.{some-injective}
use bdls.Base.{
  ℕ, suc, ◌≡◌, refl, ap, sym, subst, ◌∙◌, List, [], ◌∷◌, Option, none, some, Bool, true, false,
  if_cases, Bool-cases, inl, inr,
}
use bdls.Message.{Bytes, State}
use bdls.Message.Signing.{PrivateKey}
use bdls.Consensus.State.{Consensus, Setup, Peer}
use bdls.Consensus.Peers.{leave}
use bdls.Consensus.Receive.{receive_message}
use bdls.Consensus.Update.{update as update_consensus}
use bdls.Consensus.Neighbours.{propose-peers}
use bdls.Consensus.Neighbours.Ticking.{receive_message-peers, update-peers}
use bdls.Agent.{Gossip, AgentError, TcpPeer, Suite, Call, returned, panicked}
use bdls.Agent.Handshake.{Session, >>=-eq-some, handle_gossip}
use bdls.Agent.Sound.{Holds}
use bdls.Agent.Authentic.{Act}
use bdls.Agent.Fixed.{SameAddr, handle_gossip-addr, Act-addr}
use bdls.Agent.Addresses.{among, Different, among-without_other, among-without_same}
use bdls.Agent.TcpAgent.{
  TcpAgent, new_tcp_agent, add_peer, remove_ref, forget, remove_peer_at, close_agent, refreshed,
  with_consensus, update_agent, propose_to, input_all, input_consensus_message, session,
  settle_session, settle_call, hear,
}
use bdls.Agent.Members.{
  addresses, connections, Listed, ListedIn, addresses-present, remove_ref-without, add_peer-Listed,
  forget-Listed, close_agent-Listed, settle-Listed, remove_peer-without,
}

abbrev state_of : TcpAgent → Call TcpAgent → TcpAgent
state_of a (returned b e) = b
state_of a panicked = a

module _ (s : Setup) (suite : Suite) where
  -- What can happen to an agent: its user adds or removes a peer, closes it or proposes a state, time
  -- passes, the queue of messages is worked off, and one of its connections reads a message or does
  -- something by itself.
  pub data Step (a b : TcpAgent) : Type 0 where
    adds : (p : ℕ) → b ≡ (add_peer a p).0 → Step a b
    removes : (addr : String) → b ≡ (remove_peer_at a addr).0 → Step a b
    closes : b ≡ close_agent a → Step a b
    proposes : (st : State) → b ≡ propose_to s a st → Step a b
    updates : (fuel now : ℕ) → update_agent s fuel a now ≡ some b → Step a b
    inputs : (fuel : ℕ) (clock : ℕ → ℕ) → input_consensus_message s fuel clock a ≡ some b → Step a b
    hears :
        (p : ℕ) (g : Gossip) (e : Option AgentError) → hear suite a p g ≡ returned b e → Step a b
    acts :
        (p : ℕ) (c : Session)
        → Act suite a.private_key (session a p) c
        → b ≡ settle_session a p c
        → Step a b

  pub data Reach (a : TcpAgent) : TcpAgent → Type 0 where
    here : Reach a a
    next : {b c : TcpAgent} → Reach a b → Step b c → Reach a c

  with_consensus-Listed :
      (a b : TcpAgent) (o : Option Consensus)
      → ((d : Consensus) → o ≡ some d → addresses d.peers ≡ addresses a.consensus.peers)
      → with_consensus s a o ≡ some b
      → ListedIn a
      → ListedIn b
  with_consensus-Listed a b none h e l = absurd (cc e)
  with_consensus-Listed a b (some d) h e l =
      subst ListedIn (some-injective _ _ e)
        (subst (λ (k : List String). Listed k (connections a.heap a.peers)) (sym (h d refl)) l)

  refreshed-addresses : (a : TcpAgent) → addresses (refreshed a).peers ≡ addresses a.consensus.peers
  unfolding refreshed
  refreshed-addresses a = addresses-present a a.peers a.consensus.peers

  update_agent-Listed :
      (fuel : ℕ) (a b : TcpAgent) (now : ℕ)
      → update_agent s fuel a now ≡ some b
      → ListedIn a
      → ListedIn b
  unfolding update_agent
  update_agent-Listed fuel a b now e l =
      if_cases (λ (o : Option TcpAgent). o ≡ some b → ListedIn b) a.closed (some a)
        (with_consensus s a (update_consensus s fuel (refreshed a) now))
        (λ _ h. subst ListedIn (some-injective _ _ h) l)
        (λ _ h.
          with_consensus-Listed a b (update_consensus s fuel (refreshed a) now)
            (λ d k.
              ap addresses (update-peers s fuel (refreshed a) now d k) ∙ refreshed-addresses a)
            h l)
        e

  input_all-Listed :
      (fuel : ℕ) (clock : ℕ → ℕ) (n : ℕ) (ms : List Bytes) (a b : TcpAgent)
      → input_all s fuel clock n a ms ≡ some b
      → ListedIn a
      → ListedIn b
  unfolding input_all
  input_all-Listed fuel clock n [] a b e l = subst ListedIn (some-injective _ _ e) l
  input_all-Listed fuel clock n (bts ∷ ms) a b e l =
      let (c, e1, e2) =
        >>=-eq-some (with_consensus s a (receive_message s fuel (refreshed a) bts (clock n)))
          (λ c. input_all s fuel clock (suc n) c ms) e in
      let listed =
        with_consensus-Listed a c (receive_message s fuel (refreshed a) bts (clock n))
          (λ d k.
            ap addresses (receive_message-peers s fuel (refreshed a) bts (clock n) d k)
            ∙ refreshed-addresses a)
          e1 l in
      input_all-Listed fuel clock (suc n) ms c b e2 listed

  remove_peer_at-Listed :
      (a : TcpAgent) (addr : String) → ListedIn a → ListedIn (remove_peer_at a addr).0
  unfolding remove_peer_at
  remove_peer_at-Listed a addr l =
      forget-Listed a addr (remove_ref a.heap addr a.peers) l
        (remove_ref-without a.heap addr a.peers).0

  settled-Listed :
      (a : TcpAgent) (p : ℕ) (o : Call Session) {b : TcpAgent} {e : Option AgentError}
      → Holds (λ (c : Session). SameAddr (a.heap p) c.peer) o
      → settle_call a p o ≡ returned b e
      → ListedIn a
      → ListedIn b
  settled-Listed a p (returned c x) h e l =
      subst ListedIn (ap (state_of a) e) (settle-Listed a p c h l)
  settled-Listed a p panicked h e l = absurd (cc e)

  Step-Listed : {a b : TcpAgent} → Step a b → ListedIn a → ListedIn b
  unfolding propose_to input_consensus_message hear
  Step-Listed {a} {b} (adds p e) l = subst ListedIn (sym e) (add_peer-Listed a p l)
  Step-Listed {a} {b} (removes addr e) l = subst ListedIn (sym e) (remove_peer_at-Listed a addr l)
  Step-Listed {a} {b} (closes e) l = subst ListedIn (sym e) (close_agent-Listed a l)
  Step-Listed {a} {b} (proposes st e) l = subst ListedIn (sym e) (
      subst (λ (ps : List Peer). Listed (addresses ps) (connections a.heap a.peers))
        (sym (propose-peers s a.consensus st)) l)
  Step-Listed {a} {b} (updates fuel now e) l = update_agent-Listed fuel a b now e l
  Step-Listed {a} {b} (inputs fuel clock e) l =
      input_all-Listed fuel clock 0 a.consensus_messages (record a { consensus_messages = [] }) b e
        l
  Step-Listed {a} {b} (hears p g x e) l =
      settled-Listed a p (handle_gossip suite a.private_key (session a p) g)
        (handle_gossip-addr suite a.private_key (session a p) g) e l
  Step-Listed {a} {b} (acts p c act e) l =
      subst ListedIn (sym e)
        (settle-Listed a p c (Act-addr suite a.private_key (session a p) c act) l)

  Reach-Listed :
      (c : Consensus) (key : PrivateKey) (heap : ℕ → TcpPeer) {a : TcpAgent}
      → c.peers ≡ []
      → Reach (new_tcp_agent c key heap) a
      → ListedIn a
  unfolding new_tcp_agent
  Reach-Listed c key heap bare here = record {
    connected = λ b h. absurd (cc (sym (ap (λ (ps : List Peer). among b (addresses ps)) bare) ∙ h));
    different = subst (λ (ps : List Peer). Different (addresses ps)) (sym bare) tt;
  }
  Reach-Listed c key heap bare (next r st) = Step-Listed st (Reach-Listed c key heap bare r)

  forget-gone :
      (a : TcpAgent) (addr : String) (r : List ℕ × Bool)
      → ListedIn a
      → r.1 ≡ among addr (connections a.heap a.peers)
      → (among addr (addresses (forget a addr r).0.consensus.peers) ≡ false)
        × ((b : String)
            → str_eq addr b ≡ false
            → among b (addresses a.consensus.peers) ≡ true
            → among b (addresses (forget a addr r).0.consensus.peers) ≡ true)
  unfolding leave
  forget-gone a addr (refs, true) l e =
      let known = addresses a.consensus.peers in
      subst
        (λ (k : List String).
          (among addr k ≡ false)
          × ((b : String) → str_eq addr b ≡ false → among b known ≡ true → among b k ≡ true))
        (sym (remove_peer-without addr a.consensus.peers))
        (
          among-without_same addr known l.different,
          λ b other h. among-without_other addr b known other h,
        )
  forget-gone a addr (refs, false) l e = (
    elim (Bool-cases (among addr (addresses a.consensus.peers))) [
      | inl there ↦ absurd (cc (e, l.connected addr there))
      | inr gone ↦ gone
    ],
    λ b other h. h,
  )

  -- Whatever has happened to an agent whose consensus had no peers to begin with: once a peer is
  -- removed, the consensus has no peer at its address any more, so that it sends nothing there, and
  -- it keeps the peers at all other addresses.
  pub remove_peer_at-forgets :
      (c : Consensus) (key : PrivateKey) (heap : ℕ → TcpPeer) (a : TcpAgent) (addr : String)
      → c.peers ≡ []
      → Reach (new_tcp_agent c key heap) a
      → (among addr (addresses (remove_peer_at a addr).0.consensus.peers) ≡ false)
        × ((b : String)
            → str_eq addr b ≡ false
            → among b (addresses a.consensus.peers) ≡ true
            → among b (addresses (remove_peer_at a addr).0.consensus.peers) ≡ true)
  unfolding remove_peer_at
  remove_peer_at-forgets c key heap a addr bare r =
      forget-gone a addr (remove_ref a.heap addr a.peers) (Reach-Listed c key heap bare r)
        (remove_ref-without a.heap addr a.peers).1
