-- ===== src/Agent/Fixed.antt =====
-- The address of a peer of tcp_peer.go, which nothing changes.
use mathlib.Core.Option.{some-injective}
use bdls.Base.{ℕ, ◌≡◌, refl, ap, sym, List, Option, none, some, Bool, true, false, if_cases}
use bdls.Message.{Bytes, PublicKey}
use bdls.Message.Signing.{PrivateKey}
use bdls.Agent.{
  CommandType, Gossip, KeyAuthInit, KeyAuthChallenge, KeyAuthChallengeReply, PeerStatus,
  LocalStatus, TcpPeer, Suite, returned,
}
use bdls.Agent.Numbers.{set_bytes}
use bdls.Agent.Handshake.{
  Session, ◌>>=◌, send, same_bytes, initiate, initiate_in, draw_challenge, challenge_with,
  challenge_peer, curve_tested, init_in, handle_key_auth_init, reply_with, answer, challenge_in,
  handle_key_auth_challenge, reply_in, handle_key_auth_challenge_reply, handle_command,
  handle_gossip,
}
use bdls.Agent.Framing.{consensus_frames, send_consensus, send_agent}
use bdls.Agent.Sound.{Holds, decoding-Holds}
use bdls.Agent.Authentic.{
  Act, initiates, queues, sends_consensus, sends_agent, hands_over, closes, Holds-eq, emptied,
}

abbrev pub SameAddr : TcpPeer → TcpPeer → Type 0
SameAddr p q = q.addr ≡ p.addr

module _ (suite : Suite) where
  challenge_with-addr :
      (p : TcpPeer) (key : PublicKey) (o : Option (KeyAuthChallenge × Bytes))
      → Holds (SameAddr p) (challenge_with suite p key o)
  unfolding challenge_with
  challenge_with-addr p key none = tt
  challenge_with-addr p key (some x) = refl

  curve_tested-addr :
      (p : TcpPeer) (key : PublicKey) (o : Option Bool)
      → Holds (SameAddr p) (curve_tested suite p key o)
  unfolding curve_tested challenge_peer
  curve_tested-addr p key none = tt
  curve_tested-addr p key (some true) = challenge_with-addr p key (draw_challenge suite key p.draws)
  curve_tested-addr p key (some false) = refl

  init_in-addr :
      (st : PeerStatus) (p : TcpPeer) (auth : KeyAuthInit)
      → Holds (SameAddr p) (init_in suite st p auth)
  unfolding init_in challenge_peer
  init_in-addr PeerStatus.peer_not_authenticated p auth =
      let k : PublicKey = record { x = set_bytes auth.x; y = set_bytes auth.y } in
      curve_tested-addr p k (suite.is_on_curve k.x k.y)
  init_in-addr PeerStatus.peer_authkey_received p auth = refl
  init_in-addr PeerStatus.peer_authenticated p auth = refl
  init_in-addr PeerStatus.peer_authenticated_failed p auth = refl

  reply_with-addr : (p : TcpPeer) (o : Option Bytes) → Holds (SameAddr p) (reply_with suite p o)
  unfolding reply_with
  reply_with-addr p none = tt
  reply_with-addr p (some hmac) = refl

  challenge_in-addr :
      (st : LocalStatus) (key : PrivateKey) (p : TcpPeer) (m : KeyAuthChallenge)
      → Holds (SameAddr p) (challenge_in suite st key p m)
  unfolding challenge_in
  challenge_in-addr LocalStatus.local_not_authenticated key p m = refl
  challenge_in-addr LocalStatus.local_auth_key_sent key p m = reply_with-addr p (answer suite key m)
  challenge_in-addr LocalStatus.local_challenge_accepted key p m = refl

  reply_in-addr :
      (st : PeerStatus) (p : TcpPeer) (r : KeyAuthChallengeReply)
      → Holds (SameAddr p) (reply_in suite st p r)
  unfolding reply_in
  reply_in-addr PeerStatus.peer_authkey_received p r =
      if_cases (Holds (SameAddr p)) (same_bytes p.hmac r.hmac) (returned _ _) (returned _ _)
        (λ _. refl) (λ _. refl)
  reply_in-addr PeerStatus.peer_not_authenticated p r = refl
  reply_in-addr PeerStatus.peer_authenticated p r = refl
  reply_in-addr PeerStatus.peer_authenticated_failed p r = refl

  handle_command-addr :
      (key : PrivateKey) (c : Session) (command : CommandType) (bts : Bytes)
      → Holds (λ (d : Session). SameAddr c.peer d.peer) (handle_command suite key c command bts)
  unfolding handle_command handle_key_auth_init handle_key_auth_challenge
      handle_key_auth_challenge_reply
  handle_command-addr key c CommandType.nop bts = refl
  handle_command-addr key c CommandType.key_auth_init bts =
      decoding-Holds suite (SameAddr c.peer) c (suite.unmarshal_init bts) _ refl
        (λ auth _. init_in-addr c.peer.peer_auth_status c.peer auth)
  handle_command-addr key c CommandType.key_auth_challenge bts =
      decoding-Holds suite (SameAddr c.peer) c (suite.unmarshal_challenge bts) _ refl
        (λ m _. challenge_in-addr c.peer.local_auth_state key c.peer m)
  handle_command-addr key c CommandType.key_auth_challenge_reply bts =
      decoding-Holds suite (SameAddr c.peer) c (suite.unmarshal_reply bts) _ refl
        (λ r _. reply_in-addr c.peer.peer_auth_status c.peer r)
  handle_command-addr key c CommandType.consensus bts = refl
  handle_command-addr key c (CommandType.other n) bts = tt

  pub handle_gossip-addr :
      (key : PrivateKey) (c : Session) (g : Gossip)
      → Holds (λ (d : Session). SameAddr c.peer d.peer) (handle_gossip suite key c g)
  unfolding handle_gossip
  handle_gossip-addr key c g = handle_command-addr key c g.command g.message

  initiate_in-addr :
      (st : LocalStatus) (key : PrivateKey) (p : TcpPeer)
      → Holds (SameAddr p) (initiate_in suite st key p)
  unfolding initiate_in
  initiate_in-addr LocalStatus.local_not_authenticated key p = refl
  initiate_in-addr LocalStatus.local_auth_key_sent key p = refl
  initiate_in-addr LocalStatus.local_challenge_accepted key p = refl

  emptied-addr :
      (p : TcpPeer) (o : Option (List ℕ)) (q : TcpPeer) (frames : List ℕ)
      → (o >>= emptied suite p) ≡ some (q, frames)
      → SameAddr p q
  emptied-addr p none q frames e = cc
  emptied-addr p (some fs) q frames e = sym (ap (λ x. x.0.addr) (some-injective _ _ e))

  pub Act-addr : (key : PrivateKey) (c d : Session) → Act suite key c d → SameAddr c.peer d.peer
  unfolding initiate send_consensus send_agent send
  Act-addr key c _ (initiates p e x) =
      Holds-eq suite (SameAddr c.peer) (initiate_in-addr c.peer.local_auth_state key c.peer) x
  Act-addr key c _ (queues out) = refl
  Act-addr key c _ (sends_consensus p frames x) =
      emptied-addr c.peer (consensus_frames suite c.peer.consensus_messages) p frames x
  Act-addr key c _ sends_agent = refl
  Act-addr key c _ hands_over = refl
  Act-addr key c _ closes = refl
