-- ===== src/Agent/Authentic.antt =====
-- Whose key a peer of tcp_peer.go is taken to have, over all that can happen to a connection.
use Prim.Native.String.{String}
use mathlib.Core.Option.{some-injective}
use bdls.Base.{ℕ, ◌≡◌, refl, sym, ap, subst, ◌∙◌, List, [], ◌∷◌, Option, none, some}
use bdls.Message.{Bytes, PublicKey}
use bdls.Message.Signing.{PrivateKey}
use bdls.Agent.{
  Gossip, AgentError, PeerStatus, LocalStatus, TcpPeer, Suite, Call, returned, new_tcp_peer,
}
use bdls.Agent.Handshake.{
  Session, ◌>>=◌, key_in, get_public_key, send, initiate, initiate_in, handle_gossip,
}
use bdls.Agent.Framing.{close_peer, consensus_frames, send_consensus, send_agent}
use bdls.Agent.Sound.{Holds, SoundAt, Sound, handle_command-Sound, Proven}

module _ (suite : Suite) where
  -- What a session can do by itself: prove its own key, queue and send messages, hand the inbox over
  -- to the consensus, close.
  pub data Act (key : PrivateKey) (c : Session) : Session → Type 0 where
    initiates :
        (p : TcpPeer) (e : Option AgentError)
        → initiate suite key c.peer ≡ returned p e
        → Act key c (record c { peer = p })
    queues : (out : Bytes) → Act key c (record c { peer = send c.peer out })
    sends_consensus :
        (p : TcpPeer) (frames : List ℕ)
        → send_consensus suite c.peer ≡ some (p, frames)
        → Act key c (record c { peer = p })
    sends_agent : Act key c (record c { peer = (send_agent c.peer).0 })
    hands_over : Act key c (record c { inbox = [] })
    closes : Act key c (close_peer c)

  -- The sessions that a connection comes to, with the messages that its peer has sent, the last
  -- first.
  pub data Run (key : PrivateKey) : List Gossip → Session → Type 0 where
    connects :
        (addr : String) (inbox : List Bytes)
        → Run key [] (record { peer = new_tcp_peer addr; inbox = inbox })
    hears :
        {h : List Gossip} {c : Session} (g : Gossip) (d : Session) (e : Option AgentError)
        → Run key h c
        → handle_gossip suite key c g ≡ returned d e
        → Run key (g ∷ h) d
    acts : {h : List Gossip} {c d : Session} → Run key h c → Act key c d → Run key h d

  pub Holds-eq {ℓ κ} :
      {A : Type ℓ} (P : A → Type κ) {o : Call A} {a : A} {e : Option AgentError}
      → Holds P o
      → o ≡ returned a e
      → P a
  Holds-eq P h e = subst (Holds P) e h

  initiate_in-Sound :
      (h : List Gossip) (key : PrivateKey) (st : LocalStatus) (p : TcpPeer)
      → Sound suite h p
      → Holds (Sound suite h) (initiate_in suite st key p)
  unfolding initiate_in
  initiate_in-Sound h key LocalStatus.local_not_authenticated p s = s
  initiate_in-Sound h key LocalStatus.local_auth_key_sent p s = s
  initiate_in-Sound h key LocalStatus.local_challenge_accepted p s = s

  abbrev pub emptied : TcpPeer → List ℕ → Option (TcpPeer × List ℕ)
  emptied p frames = some (record p { consensus_messages = [] }, frames)

  send_consensus-Sound :
      (h : List Gossip) (p : TcpPeer)
      → Sound suite h p
      → (o : Option (List ℕ)) (q : TcpPeer) (frames : List ℕ) → (o >>= emptied p) ≡ some (q, frames)
      → Sound suite h q
  send_consensus-Sound h p s none q frames e = cc
  send_consensus-Sound h p s (some fs) q frames e =
      subst (Sound suite h) (ap (λ x. x.0) (some-injective _ _ e)) s

  Act-Sound :
      (h : List Gossip) (key : PrivateKey) (c d : Session)
      → Act key c d
      → Sound suite h c.peer
      → Sound suite h d.peer
  unfolding initiate send_consensus send_agent send
  Act-Sound h key c _ (initiates p e x) s =
      Holds-eq (Sound suite h) (initiate_in-Sound h key c.peer.local_auth_state c.peer s) x
  Act-Sound h key c _ (queues out) s = s
  Act-Sound h key c _ (sends_consensus p frames x) s =
      send_consensus-Sound h c.peer s (consensus_frames suite c.peer.consensus_messages) p frames x
  Act-Sound h key c _ sends_agent s = s
  Act-Sound h key c _ hands_over s = s
  Act-Sound h key c _ closes s = s

  Run-Sound :
      (key : PrivateKey) {h : List Gossip} {c : Session} → Run key h c → Sound suite h c.peer
  unfolding new_tcp_peer handle_gossip
  Run-Sound key (connects addr inbox) = tt
  Run-Sound key (hears {h} {c} g d e r x) =
      Holds-eq (λ (d : Session). Sound suite (g ∷ h) d.peer)
        (handle_command-Sound suite h g key c g.command refl (Run-Sound key r)) x
  Run-Sound key (acts {h} {c} {d} r a) = Act-Sound h key c d a (Run-Sound key r)

  known_key :
      (h : List Gossip) (st : PeerStatus) (k : Option PublicKey) (mac : Bytes) (key : PublicKey)
      → SoundAt suite h st k mac
      → key_in st k ≡ some key
      → Proven suite key h
  known_key h PeerStatus.peer_not_authenticated k mac key s e = cc
  known_key h PeerStatus.peer_authkey_received k mac key s e = cc
  known_key h PeerStatus.peer_authenticated k mac key (key', e', p) e =
      subst (λ (x : PublicKey). Proven suite x h) (some-injective _ _ (sym e' ∙ e)) p
  known_key h PeerStatus.peer_authenticated_failed k mac key s e = cc

  -- A peer is taken to have a public key only if, over its connection, it announced that key as a
  -- point of the curve, a challenge was drawn for it, and a later message replied with the very HMAC
  -- that answers the challenge, whatever else it sent and whatever the agent did in between.
  pub get_public_key-Proven :
      (key : PrivateKey) (h : List Gossip) (c : Session) (public : PublicKey)
      → Run key h c
      → get_public_key c.peer ≡ some public
      → Proven suite public h
  unfolding get_public_key
  get_public_key-Proven key h c public r e =
      known_key h c.peer.peer_auth_status c.peer.peer_public_key c.peer.hmac public
        (Run-Sound key r) e
