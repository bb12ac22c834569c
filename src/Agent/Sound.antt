-- ===== src/Agent/Sound.antt =====
-- What the handlers of tcp_peer.go keep true of a peer's proof of its key.
use bdls.Base.{
  ℕ, ◌≡◌, refl, subst, inl, inr, List, [], ◌∷◌, Option, none, some, Bool, true, false, arith, In,
  if_cases,
}
use bdls.Message.{Bytes, PublicKey}
use bdls.Message.Signing.{PrivateKey}
use bdls.Agent.{
  CommandType, Gossip, KeyAuthInit, KeyAuthChallenge, KeyAuthChallengeReply, PeerStatus,
  LocalStatus, TcpPeer, Suite, Call, returned, panicked,
}
use bdls.Agent.Numbers.{set_bytes}
use bdls.Agent.Handshake.{
  Session, same_bytes, draw_challenge, challenge_with, challenge_peer, curve_tested, init_in,
  handle_key_auth_init, reply_with, answer, challenge_in, handle_key_auth_challenge, reply_in,
  handle_key_auth_challenge_reply, handle_command, decoding, in_session,
}

-- What holds of the value that a call of the agent gives, error or not.
abbrev pub Holds {ℓ κ} : {A : Type ℓ} → (A → Type κ) → Call A → Type κ
Holds P (returned a e) = P a
Holds P panicked = Unit

same_bytes-eq : (a b : Bytes) → same_bytes a b ≡ true → a ≡ b
same_bytes-eq [] [] e = refl
same_bytes-eq [] (b ∷ bs) e = cc
same_bytes-eq (a ∷ as') [] e = cc
same_bytes-eq (a ∷ as') (b ∷ bs) e = ground (arith, same_bytes-eq as' bs)

-- The key that an init message announces.
abbrev pub announced : KeyAuthInit → PublicKey
announced auth = record { x = set_bytes auth.x; y = set_bytes auth.y }

module _ (suite : Suite) where
  -- A message of the peer announced the key, which is a point of the curve.
  pub record Announced (h : List Gossip) (key : PublicKey) : Type 0 where
    pub gossip : Gossip
    pub auth : KeyAuthInit
    pub heard : In gossip h
    pub is_init : gossip.command ≡ CommandType.key_auth_init
    pub decoded : suite.unmarshal_init gossip.message ≡ some auth
    pub is_key : announced auth ≡ key
    pub on_curve : suite.is_on_curve key.x key.y ≡ some true

  -- A challenge has been drawn for an announced key, and `mac` answers it.
  pub record Challenged (h : List Gossip) (key : PublicKey) (mac : Bytes) : Type 0 where
    pub announced_key : Announced h key
    pub draw : ℕ
    pub challenge : KeyAuthChallenge
    pub drawn : draw_challenge suite key draw ≡ some (challenge, mac)

  -- The peer was challenged, and a later message of it replied with the HMAC that answers.
  pub data Proven (key : PublicKey) : List Gossip → Type 0 where
    replies :
        {h : List Gossip} (g : Gossip) (r : KeyAuthChallengeReply)
        → g.command ≡ CommandType.key_auth_challenge_reply
        → suite.unmarshal_reply g.message ≡ some r
        → Challenged h key r.hmac
        → Proven key (g ∷ h)
    later : {h : List Gossip} (g : Gossip) → Proven key h → Proven key (g ∷ h)

  abbrev pub SoundAt : List Gossip → PeerStatus → Option PublicKey → Bytes → Type 0
  SoundAt h PeerStatus.peer_not_authenticated k mac = Unit
  SoundAt h PeerStatus.peer_authkey_received k mac =
      (key : PublicKey) × (k ≡ some key) × Challenged h key mac
  SoundAt h PeerStatus.peer_authenticated k mac = (key : PublicKey) × (k ≡ some key) × Proven key h
  SoundAt h PeerStatus.peer_authenticated_failed k mac = Unit

  abbrev pub Sound : List Gossip → TcpPeer → Type 0
  Sound h p = SoundAt h p.peer_auth_status p.peer_public_key p.hmac

  SoundAt-weaken :
      (h : List Gossip) (g : Gossip) (st : PeerStatus) (k : Option PublicKey) (mac : Bytes)
      → SoundAt h st k mac
      → SoundAt (g ∷ h) st k mac
  SoundAt-weaken h g PeerStatus.peer_not_authenticated k mac s = tt
  SoundAt-weaken h g PeerStatus.peer_authkey_received k mac (key, e, c) =
      let a = c.announced_key in
      (
        key,
        e,
        record {
          announced_key = record {
            gossip = a.gossip;
            auth = a.auth;
            heard = inr a.heard;
            is_init = a.is_init;
            decoded = a.decoded;
            is_key = a.is_key;
            on_curve = a.on_curve;
          };
          draw = c.draw;
          challenge = c.challenge;
          drawn = c.drawn;
        },
      )
  SoundAt-weaken h g PeerStatus.peer_authenticated k mac (key, e, p) = (key, e, later g p)
  SoundAt-weaken h g PeerStatus.peer_authenticated_failed k mac s = tt

  Sound-weaken : (h : List Gossip) (g : Gossip) (p : TcpPeer) → Sound h p → Sound (g ∷ h) p
  Sound-weaken h g p s = SoundAt-weaken h g p.peer_auth_status p.peer_public_key p.hmac s

  challenge_with-Sound :
      (h : List Gossip) (p : TcpPeer) (key : PublicKey) (draw : ℕ)
      (drawn : Option (KeyAuthChallenge × Bytes))
      → Announced h key
      → draw_challenge suite key draw ≡ drawn
      → Holds (Sound h) (challenge_with suite p key drawn)
  unfolding challenge_with
  challenge_with-Sound h p key draw none a e = tt
  challenge_with-Sound h p key draw (some (challenge, mac)) a e =
      (key, refl, record { announced_key = a; draw = draw; challenge = challenge; drawn = e })

  curve_tested-Sound :
      (h : List Gossip) (p : TcpPeer) (key : PublicKey) (o : Option Bool)
      → (o ≡ some true → Announced h key)
      → Holds (Sound h) (curve_tested suite p key o)
  unfolding curve_tested challenge_peer
  curve_tested-Sound h p key none a = tt
  curve_tested-Sound h p key (some true) a =
      challenge_with-Sound h p key p.draws (draw_challenge suite key p.draws) (a refl) refl
  curve_tested-Sound h p key (some false) a = tt

  init_in-Sound :
      (h : List Gossip) (g : Gossip) (auth : KeyAuthInit) (st : PeerStatus) (p : TcpPeer)
      → g.command ≡ CommandType.key_auth_init
      → suite.unmarshal_init g.message ≡ some auth
      → Sound h p
      → Holds (Sound (g ∷ h)) (init_in suite st p auth)
  unfolding init_in challenge_peer
  init_in-Sound h g auth PeerStatus.peer_not_authenticated p c d s =
      let key = announced auth in
      curve_tested-Sound (g ∷ h) p key (suite.is_on_curve key.x key.y) (λ on. record {
        gossip = g;
        auth = auth;
        heard = inl refl;
        is_init = c;
        decoded = d;
        is_key = refl;
        on_curve = on;
      })
  init_in-Sound h g auth PeerStatus.peer_authkey_received p c d s = Sound-weaken h g p s
  init_in-Sound h g auth PeerStatus.peer_authenticated p c d s = Sound-weaken h g p s
  init_in-Sound h g auth PeerStatus.peer_authenticated_failed p c d s = Sound-weaken h g p s

  reply_with-Sound :
      (h : List Gossip) (p : TcpPeer)
      → Sound h p
      → (o : Option Bytes) → Holds (Sound h) (reply_with suite p o)
  unfolding reply_with
  reply_with-Sound h p s none = tt
  reply_with-Sound h p s (some hmac) = s

  challenge_in-Sound :
      (h : List Gossip) (key : PrivateKey) (challenge : KeyAuthChallenge) (st : LocalStatus)
      (p : TcpPeer)
      → Sound h p
      → Holds (Sound h) (challenge_in suite st key p challenge)
  unfolding challenge_in
  challenge_in-Sound h key challenge LocalStatus.local_not_authenticated p s = s
  challenge_in-Sound h key challenge LocalStatus.local_auth_key_sent p s =
      reply_with-Sound h p s (answer suite key challenge)
  challenge_in-Sound h key challenge LocalStatus.local_challenge_accepted p s = s

  reply_in-Sound :
      (h : List Gossip) (g : Gossip) (r : KeyAuthChallengeReply) (st : PeerStatus) (p : TcpPeer)
      → p.peer_auth_status ≡ st
      → g.command ≡ CommandType.key_auth_challenge_reply
      → suite.unmarshal_reply g.message ≡ some r
      → Sound h p
      → Holds (Sound (g ∷ h)) (reply_in suite st p r)
  unfolding reply_in
  reply_in-Sound h g r PeerStatus.peer_authkey_received p st c d s =
      let (key, e, challenged) =
        subst (λ (t : PeerStatus). SoundAt h t p.peer_public_key p.hmac) st s in
      if_cases (Holds (Sound (g ∷ h))) (same_bytes p.hmac r.hmac) _ _
        (λ same. (
          key,
          e,
          replies g r c d (subst (Challenged h key) (same_bytes-eq p.hmac r.hmac same) challenged),
        ))
        (λ _. tt)
  reply_in-Sound h g r PeerStatus.peer_not_authenticated p st c d s = Sound-weaken h g p s
  reply_in-Sound h g r PeerStatus.peer_authenticated p st c d s = Sound-weaken h g p s
  reply_in-Sound h g r PeerStatus.peer_authenticated_failed p st c d s = Sound-weaken h g p s

  -- What holds of the peer of a session, and of that of the session behind a handler.
  pub decoding-Holds {ℓ κ} :
      {A : Type ℓ} (P : TcpPeer → Type κ) (c : Session) (o : Option A) (handle : A → Call TcpPeer)
      → P c.peer
      → ((a : A) → o ≡ some a → Holds P (handle a))
      → Holds (λ (d : Session). P d.peer) (decoding suite c o handle)
  decoding-Holds P c none handle h k = h
  decoding-Holds P c (some a) handle h k = in_session-Holds (handle a) (k a refl)
    where
      in_session-Holds :
          (o : Call TcpPeer) → Holds P o → Holds (λ (d : Session). P d.peer) (in_session suite c o)
      in_session-Holds (returned p e) x = x
      in_session-Holds panicked x = tt

  pub handle_command-Sound :
      (h : List Gossip) (g : Gossip) (key : PrivateKey) (c : Session) (command : CommandType)
      → g.command ≡ command
      → Sound h c.peer
      → Holds (λ (d : Session). Sound (g ∷ h) d.peer) (handle_command suite key c command g.message)
  unfolding handle_command handle_key_auth_init handle_key_auth_challenge
      handle_key_auth_challenge_reply
  handle_command-Sound h g key c CommandType.nop e s = Sound-weaken h g c.peer s
  handle_command-Sound h g key c CommandType.key_auth_init e s =
      decoding-Holds (Sound (g ∷ h)) c (suite.unmarshal_init g.message) _
        (Sound-weaken h g c.peer s)
        (λ auth d. init_in-Sound h g auth c.peer.peer_auth_status c.peer e d s)
  handle_command-Sound h g key c CommandType.key_auth_challenge e s =
      let s' = Sound-weaken h g c.peer s in
      decoding-Holds (Sound (g ∷ h)) c (suite.unmarshal_challenge g.message) _ s'
        (λ m d. challenge_in-Sound (g ∷ h) key m c.peer.local_auth_state c.peer s')
  handle_command-Sound h g key c CommandType.key_auth_challenge_reply e s =
      decoding-Holds (Sound (g ∷ h)) c (suite.unmarshal_reply g.message) _
        (Sound-weaken h g c.peer s)
        (λ r d. reply_in-Sound h g r c.peer.peer_auth_status c.peer refl e d s)
  handle_command-Sound h g key c CommandType.consensus e s = Sound-weaken h g c.peer s
  handle_command-Sound h g key c (CommandType.other n) e s = tt
