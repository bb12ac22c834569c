-- ===== src/Agent/Crashes.antt =====
-- Which messages of a peer take the whole process of tcp_peer.go down.
use bdls.Base.{
  ℕ, ◌≡◌, ◌≢◌, ◌↔◌, ◌⊎◌, inl, inr, refl, ap, ◌∙◌, Option, none, some, Bool, true, false, if_cases,
}
use bdls.Message.{Bytes, PublicKey}
use bdls.Message.Signing.{PrivateKey}
use bdls.Agent.{
  CommandType, Gossip, KeyAuthInit, KeyAuthChallenge, KeyAuthChallengeReply, AgentError, PeerStatus,
  LocalStatus, TcpPeer, Suite, Call, returned, panicked,
}
use bdls.Agent.Numbers.{big_bytes, set_bytes}
use bdls.Agent.Handshake.{
  Session, same_bytes, draw_challenge, challenge_with, challenge_peer, curve_tested, init_in, ecdh,
  ◌>>=◌, handle_key_auth_init, answer, reply_with, challenge_in, handle_key_auth_challenge,
  reply_in, handle_key_auth_challenge_reply, handle_command, handle_gossip, decoding, in_session,
}
use bdls.Agent.Framing.{handle_decoded, receive_frame}

returns {ℓ} : {A : Type ℓ} (a : A) (e : Option AgentError) → Call.returned a e ≢ panicked
returns a e = λ x. cc

module _ (suite : Suite) where
  -- Where the curve test of an announced key ends well, the challenge for it can be drawn.
  abbrev pub Draws : Type 0
  Draws =
      (k : PublicKey) (n : ℕ)
      → suite.is_on_curve k.x k.y ≡ some true
      → draw_challenge suite k n ≢ none

  -- A shared secret can be the key of the hash.
  abbrev pub Hashes : Type 0
  Hashes =
      (k : PublicKey) (d : PrivateKey) (n : ℕ) (text : Bytes)
      → ecdh suite k d ≡ some n
      → suite.keyed_hash (big_bytes n) text ≢ none

  -- An unknown command; the first init message, on whose key the curve test panics; or a challenge
  -- that is waited for, with a key on which the multiplication panics.
  abbrev pub Fatal : PrivateKey → Session → Gossip → Type 0
  Fatal key c g =
      ((n : ℕ) × (g.command ≡ CommandType.other n))
      ⊎ (((auth : KeyAuthInit) × (g.command ≡ CommandType.key_auth_init)
            × (suite.unmarshal_init g.message ≡ some auth)
            × (c.peer.peer_auth_status ≡ PeerStatus.peer_not_authenticated)
            × (suite.is_on_curve (set_bytes auth.x) (set_bytes auth.y) ≡ none))
          ⊎ ((m : KeyAuthChallenge) × (g.command ≡ CommandType.key_auth_challenge)
              × (suite.unmarshal_challenge g.message ≡ some m)
              × (c.peer.local_auth_state ≡ LocalStatus.local_auth_key_sent)
              × (ecdh suite (record { x = set_bytes m.x; y = set_bytes m.y }) key ≡ none)))

  decoding-panics :
      {A : Type 0} (c : Session) (o : Option A) (handle : A → Call TcpPeer)
      → decoding suite c o handle ≡ panicked
      → (a : A) × (o ≡ some a) × (handle a ≡ panicked)
  decoding-panics c none handle e = absurd (cc e)
  decoding-panics c (some a) handle e = (a, refl, within (handle a) e)
    where
      within : (o : Call TcpPeer) → in_session suite c o ≡ panicked → o ≡ panicked
      within (returned p x) k = absurd (cc k)
      within panicked k = refl

  challenge_with-returns :
      (p : TcpPeer) (public : PublicKey) (o : Option (KeyAuthChallenge × Bytes))
      → o ≢ none
      → challenge_with suite p public o ≢ panicked
  unfolding challenge_with
  challenge_with-returns p public none h = λ e. h refl
  challenge_with-returns p public (some x) h = λ e. cc

  curve_tested-panics :
      Draws
      → (p : TcpPeer) (k : PublicKey) (o : Option Bool) → suite.is_on_curve k.x k.y ≡ o
      → curve_tested suite p k o ≡ panicked
      → suite.is_on_curve k.x k.y ≡ none
  unfolding curve_tested challenge_peer
  curve_tested-panics drawn p k none f e = f
  curve_tested-panics drawn p k (some true) f e =
      absurd (challenge_with-returns p k (draw_challenge suite k p.draws) (drawn k p.draws f) e)
  curve_tested-panics drawn p k (some false) f e = absurd (cc e)

  init_in-panics :
      Draws
      → (st : PeerStatus) (p : TcpPeer) (auth : KeyAuthInit) → init_in suite st p auth ≡ panicked
      → (st ≡ PeerStatus.peer_not_authenticated)
        × (suite.is_on_curve (set_bytes auth.x) (set_bytes auth.y) ≡ none)
  unfolding init_in
  init_in-panics drawn PeerStatus.peer_not_authenticated p auth e =
      let k : PublicKey = record { x = set_bytes auth.x; y = set_bytes auth.y } in
      (refl, curve_tested-panics drawn p k (suite.is_on_curve k.x k.y) refl e)
  init_in-panics drawn PeerStatus.peer_authkey_received p auth e = absurd (cc e)
  init_in-panics drawn PeerStatus.peer_authenticated p auth e = absurd (cc e)
  init_in-panics drawn PeerStatus.peer_authenticated_failed p auth e = absurd (cc e)

  reply_with-panics : (p : TcpPeer) (o : Option Bytes) → reply_with suite p o ≡ panicked → o ≡ none
  unfolding reply_with
  reply_with-panics p none e = refl
  reply_with-panics p (some x) e = absurd (cc e)

  unanswered :
      Hashes
      → (k : PublicKey) (key : PrivateKey) (text : Bytes) (o : Option ℕ) → ecdh suite k key ≡ o
      → (o >>= λ n. suite.keyed_hash (big_bytes n) text) ≡ none
      → ecdh suite k key ≡ none
  unanswered hashed k key text none f e = f
  unanswered hashed k key text (some n) f e = absurd (hashed k key n text f e)

  challenge_in-panics :
      Hashes
      → (st : LocalStatus) (key : PrivateKey) (p : TcpPeer) (m : KeyAuthChallenge)
      → challenge_in suite st key p m ≡ panicked
      → (st ≡ LocalStatus.local_auth_key_sent)
        × (ecdh suite (record { x = set_bytes m.x; y = set_bytes m.y }) key ≡ none)
  unfolding challenge_in answer
  challenge_in-panics hashed LocalStatus.local_not_authenticated key p m e = absurd (cc e)
  challenge_in-panics hashed LocalStatus.local_auth_key_sent key p m e =
      let k : PublicKey = record { x = set_bytes m.x; y = set_bytes m.y } in
      (
        refl,
        unanswered hashed k key m.challenge (ecdh suite k key) refl
            (reply_with-panics p (answer suite key m) e),
      )
  challenge_in-panics hashed LocalStatus.local_challenge_accepted key p m e = absurd (cc e)

  reply_in-returns :
      (st : PeerStatus) (p : TcpPeer) (r : KeyAuthChallengeReply) → reply_in suite st p r ≢ panicked
  unfolding reply_in
  reply_in-returns PeerStatus.peer_authkey_received p r =
      if_cases (λ (o : Call TcpPeer). o ≢ panicked) (same_bytes p.hmac r.hmac) (returned _ _)
        (returned _ _) (λ _. returns _ _) (λ _. returns _ _)
  reply_in-returns PeerStatus.peer_not_authenticated p r = λ e. cc
  reply_in-returns PeerStatus.peer_authenticated p r = λ e. cc
  reply_in-returns PeerStatus.peer_authenticated_failed p r = λ e. cc

  handle_command-Fatal :
      Draws
      → Hashes
      → (key : PrivateKey) (c : Session) (g : Gossip) (command : CommandType) → g.command ≡ command
      → handle_command suite key c command g.message ≡ panicked
      → Fatal key c g
  unfolding handle_command handle_key_auth_init handle_key_auth_challenge
      handle_key_auth_challenge_reply
  handle_command-Fatal drawn hashed key c g CommandType.nop f e = absurd (cc e)
  handle_command-Fatal drawn hashed key c g CommandType.key_auth_init f e =
      let (auth, d, x) =
        decoding-panics c (suite.unmarshal_init g.message) (handle_key_auth_init suite c.peer) e in
      let (st, off) = init_in-panics drawn c.peer.peer_auth_status c.peer auth x in
      inr (inl (auth, f, d, st, off))
  handle_command-Fatal drawn hashed key c g CommandType.key_auth_challenge f e =
      let (m, d, x) =
        decoding-panics c (suite.unmarshal_challenge g.message)
          (handle_key_auth_challenge suite key c.peer) e in
      let (st, off) = challenge_in-panics hashed c.peer.local_auth_state key c.peer m x in
      inr (inr (m, f, d, st, off))
  handle_command-Fatal drawn hashed key c g CommandType.key_auth_challenge_reply f e =
      let (r, d, x) =
        decoding-panics c (suite.unmarshal_reply g.message)
          (handle_key_auth_challenge_reply suite c.peer) e in
      absurd (reply_in-returns c.peer.peer_auth_status c.peer r x)
  handle_command-Fatal drawn hashed key c g CommandType.consensus f e = absurd (cc e)
  handle_command-Fatal drawn hashed key c g (CommandType.other n) f e = inl (n, f)

  Fatal-panics :
      (key : PrivateKey) (c : Session) (g : Gossip)
      → Fatal key c g
      → handle_gossip suite key c g ≡ panicked
  unfolding handle_gossip handle_command handle_key_auth_init handle_key_auth_challenge init_in
      curve_tested challenge_in answer reply_with
  Fatal-panics key c g (inl (n, h)) =
      ap (λ (command : CommandType). handle_command suite key c command g.message) h
  Fatal-panics key c g (inr (inl (auth, h, d, st, off))) =
      let k : PublicKey = record { x = set_bytes auth.x; y = set_bytes auth.y } in
      ap (λ (command : CommandType). handle_command suite key c command g.message) h
      ∙ ap (λ o. decoding suite c o (handle_key_auth_init suite c.peer)) d
      ∙ ap (λ (x : PeerStatus). in_session suite c (init_in suite x c.peer auth)) st
      ∙ ap (λ o. in_session suite c (curve_tested suite c.peer k o)) off
  Fatal-panics key c g (inr (inr (m, h, d, st, off))) =
      ap (λ (command : CommandType). handle_command suite key c command g.message) h
      ∙ ap (λ o. decoding suite c o (handle_key_auth_challenge suite key c.peer)) d
      ∙ ap (λ (x : LocalStatus). in_session suite c (challenge_in suite x key c.peer m)) st
      ∙ ap
          (λ o.
            in_session suite c
              (reply_with suite c.peer (o >>= λ n. suite.keyed_hash (big_bytes n) m.challenge)))
          off

  handle_decoded-Fatal :
      Draws
      → Hashes
      → (key : PrivateKey) (c : Session) (o : Option Gossip)
      → handle_decoded suite key c o ≡ panicked
      → (g : Gossip) × (o ≡ some g) × Fatal key c g
  unfolding handle_gossip
  handle_decoded-Fatal drawn hashed key c none e = absurd (returns c _ e)
  handle_decoded-Fatal drawn hashed key c (some g) e =
      (g, refl, handle_command-Fatal drawn hashed key c g g.command refl e)

  -- Where a challenge can be drawn for every key that passes the curve test, and a shared secret can
  -- be the key of the hash, a message makes the process panic exactly when it decodes to a command
  -- that the switch does not know, to an init message of a peer that is not authenticated yet with a
  -- key on which the curve test panics, or, once the agent has announced its own key, to a challenge
  -- with a key on which the multiplication panics. None of them needs an authenticated peer.
  pub receive_frame-crashes :
      Draws
      → Hashes
      → (key : PrivateKey) (c : Session) (bts : Bytes)
      → (receive_frame suite key c bts ≡ panicked)
        ↔ ((g : Gossip) × (suite.unmarshal_gossip bts ≡ some g) × Fatal key c g)
  unfolding receive_frame
  receive_frame-crashes drawn hashed key c bts = (
    handle_decoded-Fatal drawn hashed key c (suite.unmarshal_gossip bts),
    λ (g, d, fatal). ap (handle_decoded suite key c) d ∙ Fatal-panics key c g fatal,
  )
