-- ===== src/Agent/Answers.antt =====
-- The messages of the key authentication of tcp_peer.go, each with what the other end makes of it.
use bdls.Base.{
  ℕ, suc, ◌≡◌, refl, ap, ◌∙◌, List, [], ◌∷◌, Option, none, some, Bool, true, arith, if◌then◌else◌,
}
use bdls.Message.{Bytes, PublicKey}
use bdls.Message.Signing.{PrivateKey}
use bdls.Agent.{
  CommandType, Gossip, KeyAuthInit, KeyAuthChallenge, KeyAuthChallengeReply, AgentError, PeerStatus,
  LocalStatus, TcpPeer, Suite, Call, returned, panicked, challenge_size,
}
use bdls.Agent.Numbers.{big_bytes, set_bytes, set_bytes-big_bytes}
use bdls.Agent.Handshake.{
  Session, ◌>>=◌, same_bytes, enqueue, ecdh, wrapped, initiate, initiate_in, draw_challenge,
  challenge_with, challenge_peer, curve_tested, init_in, handle_key_auth_init, answer, reply_with,
  challenge_in, handle_key_auth_challenge, reply_in, handle_key_auth_challenge_reply,
  handle_command, handle_gossip, decoding, in_session,
}
use bdls.Agent.Framing.{receive_frame, send_agent}

-- A call that returned without an error.
abbrev pub without_error {ℓ} : {A : Type ℓ} → Call A → Option A
without_error (returned a none) = some a
without_error (returned a (some e)) = none
without_error panicked = none

-- A key that travels as the bytes of its coordinates.
abbrev public_of : Bytes → Bytes → PublicKey
public_of x y = record { x = set_bytes x; y = set_bytes y }

public_of-big_bytes : (k : PublicKey) → public_of (big_bytes k.x) (big_bytes k.y) ≡ k
public_of-big_bytes k = λ i. record { x = set_bytes-big_bytes k.x i; y = set_bytes-big_bytes k.y i }

module _ (suite : Suite) where
  -- The messages of one end, handled at the other, as long as there is no error.
  unfoldable pub receive_all : PrivateKey → Session → List Bytes → Option Session
  receive_all key c [] = some c
  receive_all key c (m ∷ ms) = do
    d ← without_error (receive_frame suite key c m)
    receive_all key d ms

  -- What waits at one end is sent and handled at the other.
  unfoldable pub exchange : PrivateKey → Session → Session → Option (Session × Session)
  exchange key c d = do
    d' ← receive_all key d c.peer.agent_messages
    some (record c { peer = (send_agent c.peer).0 }, d')

  -- `a` proves to `b` the key of `mine`: the init message, the challenge, the reply.
  unfoldable pub authenticate :
      PrivateKey → PrivateKey → Session → Session → Option (Session × Session)
  authenticate mine theirs a b = do
    p ← without_error (initiate suite mine a.peer)
    (a1, b1) ← exchange theirs (record a { peer = p }) b
    (b2, a2) ← exchange mine b1 a1
    exchange theirs a2 b2

  -- Unmarshal gives back what Marshal was given.
  pub record Coded : Type 0 where
    pub gossip : (g : Gossip) → suite.unmarshal_gossip (suite.marshal_gossip g) ≡ some g
    pub key_init : (m : KeyAuthInit) → suite.unmarshal_init (suite.marshal_init m) ≡ some m
    pub challenge :
        (m : KeyAuthChallenge) → suite.unmarshal_challenge (suite.marshal_challenge m) ≡ some m
    pub reply : (m : KeyAuthChallengeReply) → suite.unmarshal_reply (suite.marshal_reply m) ≡ some m

  same_bytes_self : (bs : Bytes) → same_bytes bs bs ≡ true
  same_bytes_self [] = refl
  same_bytes_self (b ∷ bs) = ground (arith, same_bytes_self bs)

  pub exchange-one :
      (key : PrivateKey) (c d d' : Session) (m : Bytes)
      → c.peer.agent_messages ≡ m ∷ []
      → receive_frame suite key d m ≡ returned d' none
      → exchange key c d ≡ some (record c { peer = record c.peer { agent_messages = [] } }, d')
  unfolding exchange receive_all send_agent
  exchange-one key c d d' m e r =
      ap (λ ms. receive_all key d ms >>= λ x. some (record c { peer = (send_agent c.peer).0 }, x)) e
      ∙ ap
          (λ o. (without_error o >>= λ x. some x) >>= λ x.
            some (record c { peer = (send_agent c.peer).0 }, x))
          r

  receive_frame-wrapped :
      Coded
      → (key : PrivateKey) (c : Session) (command : CommandType) (bts : Bytes)
      → receive_frame suite key c (wrapped suite command bts)
        ≡ handle_command suite key c command bts
  unfolding receive_frame wrapped handle_gossip
  receive_frame-wrapped coded key c command bts =
      rw (coded.gossip (record { command = command; message = bts })) refl

  -- The peer behind its own init message.
  abbrev pub init_message : PrivateKey → Bytes
  init_message key = wrapped suite CommandType.key_auth_init (
      suite.marshal_init
        (record { x = big_bytes key.public_key.x; y = big_bytes key.public_key.y }))

  abbrev pub sent_init : PrivateKey → TcpPeer → TcpPeer
  sent_init key p = record (enqueue p (init_message key)) {
    local_auth_state = LocalStatus.local_auth_key_sent;
  }

  pub initiate_lem :
      (key : PrivateKey) (p : TcpPeer)
      → p.local_auth_state ≡ LocalStatus.local_not_authenticated
      → initiate suite key p ≡ returned (sent_init key p) none
  unfolding initiate initiate_in
  initiate_lem key p e = ap (λ (st : LocalStatus). initiate_in suite st key p) e

  -- The challenge that an ephemeral key and a text make.
  abbrev pub challenge_of : PrivateKey → Bytes → KeyAuthChallenge
  challenge_of ephemeral text = record {
    x = big_bytes ephemeral.public_key.x;
    y = big_bytes ephemeral.public_key.y;
    challenge = text;
  }

  abbrev pub challenge_message : PrivateKey → Bytes → Bytes
  challenge_message ephemeral text =
      wrapped suite CommandType.key_auth_challenge
        (suite.marshal_challenge (challenge_of ephemeral text))

  abbrev pub challenger : TcpPeer → PublicKey → PrivateKey → Bytes → Bytes → TcpPeer
  challenger p public ephemeral text mac = record (enqueue p (challenge_message ephemeral text)) {
    peer_public_key = some public;
    hmac = mac;
    peer_auth_status = PeerStatus.peer_authkey_received;
    draws = suc (suc p.draws);
  }

  pub draw_challenge_lem :
      (public : PublicKey) (n : ℕ) (ephemeral : PrivateKey) (secret : ℕ) (text mac : Bytes)
      → suite.generate_key n ≡ some ephemeral
      → ecdh suite public ephemeral ≡ some secret
      → suite.read_random (suc n) challenge_size ≡ some text
      → suite.keyed_hash (big_bytes secret) text ≡ some mac
      → draw_challenge suite public n ≡ some (challenge_of ephemeral text, mac)
  unfolding draw_challenge
  draw_challenge_lem public n ephemeral secret text mac e1 e2 e3 e4 = rw (e1, e2, e3, e4) refl

  challenge_peer_lem :
      (p : TcpPeer) (public : PublicKey) (ephemeral : PrivateKey) (text mac : Bytes)
      → draw_challenge suite public p.draws ≡ some (challenge_of ephemeral text, mac)
      → challenge_peer suite p public ≡ returned (challenger p public ephemeral text mac) none
  unfolding challenge_peer challenge_with
  challenge_peer_lem p public ephemeral text mac e = ap (challenge_with suite p public) e

  -- The verifier on the init message of a key on the curve.
  pub init_lem :
      Coded
      → (mine theirs : PrivateKey) (c : Session) (ephemeral : PrivateKey) (text mac : Bytes)
      → c.peer.peer_auth_status ≡ PeerStatus.peer_not_authenticated
      → suite.is_on_curve mine.public_key.x mine.public_key.y ≡ some true
      → draw_challenge suite mine.public_key c.peer.draws ≡ some (challenge_of ephemeral text, mac)
      → receive_frame suite theirs c (init_message mine)
        ≡ returned (record c { peer = challenger c.peer mine.public_key ephemeral text mac }) none
  unfolding handle_command handle_key_auth_init init_in curve_tested
  init_lem coded mine theirs c ephemeral text mac e on drawn =
      let k = mine.public_key in
      let auth : KeyAuthInit = record { x = big_bytes k.x; y = big_bytes k.y } in
      let verdict = λ (q : PublicKey).
        in_session suite c (curve_tested suite c.peer q (suite.is_on_curve q.x q.y)) in
      receive_frame-wrapped coded theirs c CommandType.key_auth_init (suite.marshal_init auth)
      ∙ ap (λ o. decoding suite c o (handle_key_auth_init suite c.peer)) (coded.key_init auth)
      ∙ ap (λ (st : PeerStatus). in_session suite c (init_in suite st c.peer auth)) e
      ∙ ap verdict (public_of-big_bytes k)
      ∙ ap (λ o. in_session suite c (curve_tested suite c.peer k o)) on
      ∙ ap (in_session suite c) (challenge_peer_lem c.peer k ephemeral text mac drawn)

  abbrev pub reply_message : Bytes → Bytes
  reply_message mac =
      wrapped suite CommandType.key_auth_challenge_reply
        (suite.marshal_reply (record { hmac = mac }))

  abbrev pub replier : TcpPeer → Bytes → TcpPeer
  replier p mac = record (enqueue p (reply_message mac)) {
    local_auth_state = LocalStatus.local_challenge_accepted;
  }

  -- The prover on a challenge, where both sides come to the same secret.
  pub challenge_lem :
      Coded
      → (mine ephemeral : PrivateKey) (c : Session) (secret : ℕ) (text mac : Bytes)
      → c.peer.local_auth_state ≡ LocalStatus.local_auth_key_sent
      → ecdh suite ephemeral.public_key mine ≡ some secret
      → suite.keyed_hash (big_bytes secret) text ≡ some mac
      → receive_frame suite mine c (challenge_message ephemeral text)
        ≡ returned (record c { peer = replier c.peer mac }) none
  unfolding handle_command handle_key_auth_challenge challenge_in answer reply_with
  challenge_lem coded mine ephemeral c secret text mac e shared hashed =
      let m = challenge_of ephemeral text in
      let k = ephemeral.public_key in
      receive_frame-wrapped coded mine c CommandType.key_auth_challenge (suite.marshal_challenge m)
      ∙ ap (λ o. decoding suite c o (handle_key_auth_challenge suite mine c.peer))
          (coded.challenge m)
      ∙ ap (λ (st : LocalStatus). in_session suite c (challenge_in suite st mine c.peer m)) e
      ∙ ap
          (λ (q : PublicKey). in_session suite c (
            reply_with suite c.peer
              (ecdh suite q mine >>= λ n. suite.keyed_hash (big_bytes n) text)))
          (public_of-big_bytes k)
      ∙ ap
          (λ o.
            in_session suite c
              (reply_with suite c.peer (o >>= λ n. suite.keyed_hash (big_bytes n) text)))
          shared
      ∙ ap (λ o. in_session suite c (reply_with suite c.peer o)) hashed

  abbrev pub truster : TcpPeer → TcpPeer
  truster p = record p { hmac = []; peer_auth_status = PeerStatus.peer_authenticated }

  -- The verifier on the reply that it waits for.
  pub reply_lem :
      Coded
      → (theirs : PrivateKey) (c : Session) (mac : Bytes)
      → c.peer.peer_auth_status ≡ PeerStatus.peer_authkey_received
      → c.peer.hmac ≡ mac
      → receive_frame suite theirs c (reply_message mac)
        ≡ returned (record c { peer = truster c.peer }) none
  unfolding handle_command handle_key_auth_challenge_reply reply_in
  reply_lem coded theirs c mac e same =
      let r : KeyAuthChallengeReply = record { hmac = mac } in
      receive_frame-wrapped coded theirs c CommandType.key_auth_challenge_reply
        (suite.marshal_reply r)
      ∙ ap (λ o. decoding suite c o (handle_key_auth_challenge_reply suite c.peer)) (coded.reply r)
      ∙ ap (λ (st : PeerStatus). in_session suite c (reply_in suite st c.peer r)) e
      ∙ ap
          (λ (t : Bool). in_session suite c (
            if t
            then returned (truster c.peer) none
            else returned
                (record c.peer { peer_auth_status = PeerStatus.peer_authenticated_failed })
                (some AgentError.peer_authenticated_failed)))
          (ap (λ (h : Bytes). same_bytes h mac) same ∙ same_bytes_self mac)

  abbrev pub quiet : TcpPeer → TcpPeer
  quiet p = record p { agent_messages = [] }
