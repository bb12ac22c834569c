-- ===== src/Agent/Trusted.antt =====
-- Two agents that follow the key authentication of tcp_peer.go.
use bdls.Base.{ℕ, suc, ◌≡◌, refl, ap, List, [], ◌∷◌, ◌++◌, some, true}
use bdls.Message.{Bytes}
use bdls.Message.Signing.{PrivateKey}
use bdls.Agent.{PeerStatus, LocalStatus, Suite, challenge_size}
use bdls.Agent.Numbers.{big_bytes}
use bdls.Agent.Handshake.{Session, get_public_key, ecdh}
use bdls.Agent.Answers.{
  init_message, sent_init, initiate_lem, challenger, draw_challenge_lem, challenge_message,
  init_lem, reply_message, replier, challenge_lem, reply_lem, exchange-one, truster, quiet, Coded,
  authenticate,
}

module _ (suite : Suite) where
  -- Two agents that follow the protocol, over connections on which nothing has happened yet and where
  -- nothing waits, come through: in three messages the one end has accepted the challenge, and the
  -- other knows the public key of the first. The key has to be a point of the curve, the random
  -- numbers and the keyed hash have to be available, Unmarshal to give back what Marshal was given,
  -- and the two ways to the shared secret to agree.
  pub authenticate-trusted :
      Coded suite
      → (mine theirs ephemeral : PrivateKey) (a b : Session) (secret : ℕ) (text mac : Bytes)
      → a.peer.local_auth_state ≡ LocalStatus.local_not_authenticated
      → a.peer.agent_messages ≡ []
      → b.peer.peer_auth_status ≡ PeerStatus.peer_not_authenticated
      → b.peer.agent_messages ≡ []
      → suite.is_on_curve mine.public_key.x mine.public_key.y ≡ some true
      → suite.generate_key b.peer.draws ≡ some ephemeral
      → suite.read_random (suc b.peer.draws) challenge_size ≡ some text
      → ecdh suite mine.public_key ephemeral ≡ some secret
      → ecdh suite ephemeral.public_key mine ≡ some secret
      → suite.keyed_hash (big_bytes secret) text ≡ some mac
      → (a' : Session) × (b' : Session) × (authenticate suite mine theirs a b ≡ some (a', b'))
        × (a'.peer.local_auth_state ≡ LocalStatus.local_challenge_accepted)
        × (get_public_key b'.peer ≡ some mine.public_key)
  unfolding authenticate get_public_key
  authenticate-trusted coded mine theirs ephemeral a b secret text mac la qa lb qb on gen rand there
        back hashed =
      let drawn =
        draw_challenge_lem suite mine.public_key b.peer.draws ephemeral secret text mac gen there
          rand hashed in
      let a1 = record a { peer = sent_init suite mine a.peer } in
      let b1 = record b { peer = challenger suite b.peer mine.public_key ephemeral text mac } in
      let a2 = record a1 { peer = quiet suite a1.peer } in
      let b2 = record b1 { peer = quiet suite b1.peer } in
      let a3 = record a2 { peer = replier suite a2.peer mac } in
      let b3 = record b2 { peer = truster suite b2.peer } in
      let first =
        exchange-one suite theirs a1 b b1 (init_message suite mine)
          (ap (λ (q : List Bytes). q ++ init_message suite mine ∷ []) qa)
          (init_lem suite coded mine theirs b ephemeral text mac lb on drawn) in
      let second =
        exchange-one suite mine b1 a2 a3 (challenge_message suite ephemeral text)
          (ap (λ (q : List Bytes). q ++ challenge_message suite ephemeral text ∷ []) qb)
          (challenge_lem suite coded mine ephemeral a2 secret text mac refl back hashed) in
      let third =
        exchange-one suite theirs a3 b2 b3 (reply_message suite mac) refl
          (reply_lem suite coded theirs b2 mac refl refl) in
      (
        record a3 { peer = quiet suite a3.peer },
        b3,
        rw (initiate_lem suite mine a.peer la, first, second) third,
        refl,
        refl,
      )
