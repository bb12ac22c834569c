-- ===== src/Agent/Handshake.antt =====
-- The key authentication of tcp_peer.go, with ecdh.go, and what `handleGossip` makes of a message.
use bdls.Base.{
  ◌≡◌, refl, ℕ, suc, List, [], ◌∷◌, ◌++◌, Option, none, some, Bool, true, false, if◌then◌else◌,
  ◌==◌, ◌&&◌,
}
use bdls.Message.{Bytes, PublicKey}
use bdls.Message.Signing.{PrivateKey}
use bdls.Agent.{
  CommandType, Gossip, KeyAuthInit, KeyAuthChallenge, KeyAuthChallengeReply, AgentError, PeerStatus,
  LocalStatus, TcpPeer, Suite, Call, returned, panicked, challenge_size,
}
use bdls.Agent.Numbers.{big_bytes, set_bytes}

infixl 5 ◌>>=◌
abbrev pub ◌>>=◌ {ℓ κ} : {A : Type ℓ} {B : Type κ} → Option A → (A → Option B) → Option B
none >>= f = none
some a >>= f = f a

pub >>=-eq-some {ℓ κ} :
    {A : Type ℓ} {B : Type κ} (o : Option A) (f : A → Option B) {b : B}
    → (o >>= f) ≡ some b
    → (a : A) × (o ≡ some a) × (f a ≡ some b)
>>=-eq-some none f e = cc
>>=-eq-some (some a) f e = (a, refl, e)

-- `subtle.ConstantTimeCompare(a, b) == 1`.
abbrev pub same_bytes : Bytes → Bytes → Bool
same_bytes [] [] = true
same_bytes [] (b ∷ bs) = false
same_bytes (a ∷ as') [] = false
same_bytes (a ∷ as') (b ∷ bs) = (a == b) && same_bytes as' bs

-- `GetPublicKey`.
abbrev pub key_in : PeerStatus → Option PublicKey → Option PublicKey
key_in PeerStatus.peer_authenticated key = key
key_in PeerStatus.peer_not_authenticated key = none
key_in PeerStatus.peer_authkey_received key = none
key_in PeerStatus.peer_authenticated_failed key = none

unfoldable pub get_public_key : TcpPeer → Option PublicKey
get_public_key p = key_in p.peer_auth_status p.peer_public_key

-- `Send`.
unfoldable pub send : TcpPeer → Bytes → TcpPeer
send p out = record p { consensus_messages = p.consensus_messages ++ out ∷ [] }

-- `p.agentMessages = append(p.agentMessages, out)`.
abbrev pub enqueue : TcpPeer → Bytes → TcpPeer
enqueue p out = record p { agent_messages = p.agent_messages ++ out ∷ [] }

-- A peer with the queue of its agent, to which the messages of the consensus go.
pub record Session : Type 0 where
  pub peer : TcpPeer
  pub inbox : List Bytes

module _ (suite : Suite) where
  -- `ECDH`.
  unfoldable pub ecdh : PublicKey → PrivateKey → Option ℕ
  ecdh public key = do
    point ← suite.scalar_mult public.x public.y (big_bytes key.secret)
    some point.0

  -- A message of the agent in its envelope.
  unfoldable pub wrapped : CommandType → Bytes → Bytes
  wrapped command bts = suite.marshal_gossip (record { command = command; message = bts })

  -- `InitiatePublicKeyAuthentication`, with the private key of the agent.
  unfoldable pub initiate_in : LocalStatus → PrivateKey → TcpPeer → Call TcpPeer
  initiate_in LocalStatus.local_not_authenticated key p =
      let auth =
        suite.marshal_init
          (record { x = big_bytes key.public_key.x; y = big_bytes key.public_key.y }) in
      returned
        (record (enqueue p (wrapped CommandType.key_auth_init auth)) {
          local_auth_state = LocalStatus.local_auth_key_sent;
        })
        none
  initiate_in LocalStatus.local_auth_key_sent key p =
      returned p (some AgentError.peer_key_auth_init)
  initiate_in LocalStatus.local_challenge_accepted key p =
      returned p (some AgentError.peer_key_auth_init)

  unfoldable pub initiate : PrivateKey → TcpPeer → Call TcpPeer
  unfolding initiate_in
  initiate key p = initiate_in p.local_auth_state key p

  -- The challenge for a key, and the HMAC that answers it; none where a call fails and the code
  -- panics. Two draws: the ephemeral key, and the text.
  unfoldable pub draw_challenge : PublicKey → ℕ → Option (KeyAuthChallenge × Bytes)
  draw_challenge public n = do
    ephemeral ← suite.generate_key n
    secret ← ecdh public ephemeral
    text ← suite.read_random (suc n) challenge_size
    hmac ← suite.keyed_hash (big_bytes secret) text
    some (
      record {
        x = big_bytes ephemeral.public_key.x;
        y = big_bytes ephemeral.public_key.y;
        challenge = text;
      },
      hmac,
    )

  -- `handleKeyAuthInit` behind the test of the curve, with the challenge where there is one.
  unfoldable pub challenge_with :
      TcpPeer → PublicKey → Option (KeyAuthChallenge × Bytes) → Call TcpPeer
  challenge_with p public none = panicked
  challenge_with p public (some (challenge, hmac)) =
      let out = wrapped CommandType.key_auth_challenge (suite.marshal_challenge challenge) in
      returned
        (record (enqueue p out) {
          peer_public_key = some public;
          hmac = hmac;
          peer_auth_status = PeerStatus.peer_authkey_received;
          draws = suc (suc p.draws);
        })
        none

  unfoldable pub challenge_peer : TcpPeer → PublicKey → Call TcpPeer
  unfolding challenge_with
  challenge_peer p public = challenge_with p public (draw_challenge public p.draws)

  -- `handleKeyAuthInit` by the test of the curve, which may panic.
  unfoldable pub curve_tested : TcpPeer → PublicKey → Option Bool → Call TcpPeer
  curve_tested p public none = panicked
  curve_tested p public (some true) = challenge_peer p public
  curve_tested p public (some false) =
      returned (record p { peer_auth_status = PeerStatus.peer_authenticated_failed })
        (some AgentError.key_not_on_curve)

  -- `handleKeyAuthInit`, by the status of the peer.
  unfoldable pub init_in : PeerStatus → TcpPeer → KeyAuthInit → Call TcpPeer
  unfolding curve_tested
  init_in PeerStatus.peer_not_authenticated p auth =
      let public : PublicKey = record { x = set_bytes auth.x; y = set_bytes auth.y } in
      curve_tested p public (suite.is_on_curve public.x public.y)
  init_in PeerStatus.peer_authkey_received p auth = returned p (some AgentError.peer_key_auth_init)
  init_in PeerStatus.peer_authenticated p auth = returned p (some AgentError.peer_key_auth_init)
  init_in PeerStatus.peer_authenticated_failed p auth =
      returned p (some AgentError.peer_key_auth_init)

  unfoldable pub handle_key_auth_init : TcpPeer → KeyAuthInit → Call TcpPeer
  unfolding init_in
  handle_key_auth_init p auth = init_in p.peer_auth_status p auth

  -- The HMAC of a challenge that was received, by our own key.
  unfoldable pub answer : PrivateKey → KeyAuthChallenge → Option Bytes
  answer key challenge =
      let public : PublicKey = record { x = set_bytes challenge.x; y = set_bytes challenge.y } in
      ecdh public key >>= λ secret. suite.keyed_hash (big_bytes secret) challenge.challenge

  -- The reply, where the HMAC could be computed.
  unfoldable pub reply_with : TcpPeer → Option Bytes → Call TcpPeer
  reply_with p none = panicked
  reply_with p (some hmac) =
      let reply = suite.marshal_reply (record { hmac = hmac }) in
      returned
        (record (enqueue p (wrapped CommandType.key_auth_challenge_reply reply)) {
          local_auth_state = LocalStatus.local_challenge_accepted;
        })
        none

  -- `handleKeyAuthChallenge`, by our own status.
  unfoldable pub challenge_in : LocalStatus → PrivateKey → TcpPeer → KeyAuthChallenge → Call TcpPeer
  challenge_in LocalStatus.local_auth_key_sent key p challenge = reply_with p (answer key challenge)
  challenge_in LocalStatus.local_not_authenticated key p challenge =
      returned p (some AgentError.peer_key_auth_challenge)
  challenge_in LocalStatus.local_challenge_accepted key p challenge =
      returned p (some AgentError.peer_key_auth_challenge)

  unfoldable pub handle_key_auth_challenge : PrivateKey → TcpPeer → KeyAuthChallenge → Call TcpPeer
  unfolding challenge_in
  handle_key_auth_challenge key p challenge = challenge_in p.local_auth_state key p challenge

  -- `handleKeyAuthChallengeReply`, by the status of the peer.
  unfoldable pub reply_in : PeerStatus → TcpPeer → KeyAuthChallengeReply → Call TcpPeer
  reply_in PeerStatus.peer_authkey_received p response =
      if same_bytes p.hmac response.hmac
      then returned (record p { hmac = []; peer_auth_status = PeerStatus.peer_authenticated }) none
      else returned (record p { peer_auth_status = PeerStatus.peer_authenticated_failed })
          (some AgentError.peer_authenticated_failed)
  reply_in PeerStatus.peer_not_authenticated p response =
      returned p (some AgentError.peer_key_auth_init)
  reply_in PeerStatus.peer_authenticated p response =
      returned p (some AgentError.peer_key_auth_init)
  reply_in PeerStatus.peer_authenticated_failed p response =
      returned p (some AgentError.peer_key_auth_init)

  unfoldable pub handle_key_auth_challenge_reply : TcpPeer → KeyAuthChallengeReply → Call TcpPeer
  unfolding reply_in
  handle_key_auth_challenge_reply p response = reply_in p.peer_auth_status p response

  -- The session behind a handler that only changes the peer.
  abbrev pub in_session : Session → Call TcpPeer → Call Session
  in_session c (returned p e) = returned (record c { peer = p }) e
  in_session c panicked = panicked

  -- A message that is decoded before its handler runs.
  abbrev pub decoding {ℓ} : {A : Type ℓ} → Session → Option A → (A → Call TcpPeer) → Call Session
  decoding c none handle = returned c (some AgentError.unmarshal)
  decoding c (some m) handle = in_session c (handle m)

  -- The `switch` of `handleGossip`.
  unfoldable pub handle_command : PrivateKey → Session → CommandType → Bytes → Call Session
  handle_command key c CommandType.nop bts = returned c none
  handle_command key c CommandType.key_auth_init bts =
      decoding c (suite.unmarshal_init bts) (handle_key_auth_init c.peer)
  handle_command key c CommandType.key_auth_challenge bts =
      decoding c (suite.unmarshal_challenge bts) (handle_key_auth_challenge key c.peer)
  handle_command key c CommandType.key_auth_challenge_reply bts =
      decoding c (suite.unmarshal_reply bts) (handle_key_auth_challenge_reply c.peer)
  handle_command key c CommandType.consensus bts =
      returned (record c { inbox = c.inbox ++ bts ∷ [] }) none
  handle_command key c (CommandType.other n) bts = panicked

  -- `handleGossip`.
  unfoldable pub handle_gossip : PrivateKey → Session → Gossip → Call Session
  unfolding handle_command
  handle_gossip key c g = handle_command key c g.command g.message
