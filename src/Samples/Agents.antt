-- ===== src/Samples/Agents.antt =====
-- Two agents over a toy curve, on which the coordinates are equal and multiplication is that of
-- numbers, and over toy codes, in which a field ends at a zero.
use bdls.Base.{
  ℕ, ◌%◌, zero, suc, ◌+◌, ◌*◌, ◌<◌, ◌≡◌, ◌≢◌, ◌↔◌, refl, ap, List, [], ◌∷◌, ◌++◌, Option, none,
  some, true, false, arith, ◌==◌, ltb, ◌&&◌, if◌then◌else◌, length,
}
use bdls.Message.{Bytes}
use bdls.Message.Signing.{PrivateKey, little_endian}
use bdls.Message.Axis.{of_bytes, axis_bound}
use bdls.Agent.{
  CommandType, Gossip, KeyAuthInit, KeyAuthChallenge, Suite, Call, LocalStatus, TcpPeer, returned,
  panicked, new_tcp_peer,
}
use bdls.Agent.Numbers.{big_bytes, digits, set_bytes}
use bdls.Agent.Handshake.{
  Session, ◌>>=◌, draw_challenge, ecdh, wrapped, get_public_key, send, handle_gossip,
  handle_command, handle_key_auth_init, init_in, challenge_peer, curve_tested, challenge_with,
  handle_key_auth_challenge_reply, reply_in,
}
use bdls.Agent.Framing.{
  unfinished, read_loop, receive_frame, write_frame, send_consensus, consensus_frames,
}
use bdls.Agent.Streams.{read_loop-ends, read_loop-send_consensus}
use bdls.Agent.Sound.{Proven}
use bdls.Agent.Authentic.{Run, hears, connects, get_public_key-Proven}
use bdls.Agent.Answers.{Coded, authenticate}
use bdls.Agent.Trusted.{authenticate-trusted}
use bdls.Agent.Crashes.{Draws, Hashes, Fatal, receive_frame-crashes}
use bdls.Agent.TcpAgent.{TcpAgent, new_tcp_agent, add_peer, remove_peer_at}
use bdls.Agent.Addresses.{among}
use bdls.Agent.Members.{addresses}
use bdls.Agent.Forgotten.{here, next, adds, remove_peer_at-forgets}
use bdls.Consensus.Config.{init, blank}
use bdls.Consensus.Rounds.{switch_round, search_round}
use bdls.Consensus.Proposals.{maximal_locked, maximal, maximal_unconfirmed}
use bdls.Consensus.Send.{broadcast_round_change}
use bdls.Round.{new_round}
use bdls.Samples.Toy.{toy, started}
use Prim.Native.String.{String}
use text.Mathlib.Text.{◌==◌ as str_eq}

abbrev field : Bytes → Bytes → Bytes
field [] rest = 0 ∷ rest
field (b ∷ bs) rest = suc b ∷ field bs rest

abbrev first_field : Bytes → Option (Bytes × Bytes)
first_field [] = none
first_field (zero ∷ rest) = some ([], rest)
first_field (suc b ∷ rest) = first_field rest >>= λ x. some (b ∷ x.0, x.1)

first_field-field : (bs rest : Bytes) → first_field (field bs rest) ≡ some (bs, rest)
first_field-field [] rest = refl
first_field-field (b ∷ bs) rest = rw (first_field-field bs rest) refl

abbrev tag : CommandType → ℕ
tag CommandType.nop = 0
tag CommandType.key_auth_init = 1
tag CommandType.key_auth_challenge = 2
tag CommandType.key_auth_challenge_reply = 3
tag CommandType.consensus = 4
tag (CommandType.other n) = suc (suc (suc (suc (suc n))))

abbrev command : ℕ → CommandType
command zero = CommandType.nop
command (suc zero) = CommandType.key_auth_init
command (suc (suc zero)) = CommandType.key_auth_challenge
command (suc (suc (suc zero))) = CommandType.key_auth_challenge_reply
command (suc (suc (suc (suc zero)))) = CommandType.consensus
command (suc (suc (suc (suc (suc n))))) = CommandType.other n

command-tag : (c : CommandType) → command (tag c) ≡ c
command-tag CommandType.nop = refl
command-tag CommandType.key_auth_init = refl
command-tag CommandType.key_auth_challenge = refl
command-tag CommandType.key_auth_challenge_reply = refl
command-tag CommandType.consensus = refl
command-tag (CommandType.other n) = refl

abbrev as_gossip : Bytes → Option Gossip
as_gossip [] = none
as_gossip (t ∷ message) = some (record { command = command t; message = message })

abbrev as_init : Bytes → Option KeyAuthInit
as_init bs = first_field bs >>= λ f. some (record { x = f.0; y = f.1 })

abbrev as_challenge : Bytes → Option KeyAuthChallenge
as_challenge bs = first_field bs >>= λ f.
    first_field f.1 >>= λ g. some (record { x = f.0; y = g.0; challenge = g.1 })

same_fits : (n : ℕ) → (ltb (n % 256) axis_bound && ltb (n % 256) axis_bound) ≡ true
same_fits n = ground arith

abbrev toy_key : ℕ → PrivateKey
toy_key n = record {
  secret = n;
  public_key = record { x = n % 256; y = n % 256 };
  fits = same_fits n;
}

abbrev toy_suite : Suite
toy_suite = record {
  is_on_curve = λ x y. if ltb x axis_bound && ltb y axis_bound then some (x == y) else none;
  scalar_mult =
      λ x y d. if ltb x axis_bound && ltb y axis_bound then some (x * of_bytes 0 d, 0) else none;
  generate_key = λ n. some (toy_key 5);
  read_random = λ n size. some (9 ∷ 8 ∷ []);
  keyed_hash = λ key text. some (key ++ text);
  marshal_gossip = λ g. tag g.command ∷ g.message;
  unmarshal_gossip = as_gossip;
  marshal_init = λ m. field m.x m.y;
  unmarshal_init = as_init;
  marshal_challenge = λ m. field m.x (field m.y m.challenge);
  unmarshal_challenge = as_challenge;
  marshal_reply = λ m. m.hmac;
  unmarshal_reply = λ bs. some (record { hmac = bs });
}

abbrev fresh : Session
fresh = record { peer = new_tcp_peer "10.0.0.2:4680"; inbox = [] }

toy-Coded : Coded toy_suite
toy-Coded = record {
  gossip =
      λ g. ap (λ c. some (record { command = c; message = g.message })) (command-tag g.command);
  key_init = λ m. rw (first_field-field m.x m.y) refl;
  challenge = λ m.
      rw (first_field-field m.x (field m.y m.challenge), first_field-field m.y m.challenge) refl;
  reply = λ m. refl;
}

-- The key 3 is proved to the other end.
authenticate-trusted_example :
    (a' : Session) × (b' : Session) × (authenticate toy_suite (toy_key 3) (toy_key 4) fresh fresh
      ≡ some (a', b'))
    × (a'.peer.local_auth_state ≡ LocalStatus.local_challenge_accepted)
    × (get_public_key b'.peer ≡ some (toy_key 3).public_key)
unfolding new_tcp_peer ecdh big_bytes digits of_bytes
authenticate-trusted_example =
    authenticate-trusted toy_suite toy-Coded (toy_key 3) (toy_key 4) (toy_key 5) fresh fresh 15
      (9 ∷ 8 ∷ []) (15 ∷ 9 ∷ 8 ∷ []) refl refl refl refl refl refl refl refl refl refl

toy_coded :
    (m : Bytes)
    → (toy_suite.unmarshal_gossip (wrapped toy_suite CommandType.consensus m)
        ≡ some (record { command = CommandType.consensus; message = m }))
      × (0 < length (wrapped toy_suite CommandType.consensus m))
unfolding wrapped
toy_coded m = (refl, omega arith)

toy_draws : Draws toy_suite
unfolding draw_challenge ecdh
toy_draws k n on e = ground (arith, on, e)

toy_hashes : Hashes toy_suite
toy_hashes k d n text shared e = cc e

abbrev behind : Session → Call Session → Session
behind c (returned d e) = d
behind c panicked = c

-- The init message of the key 3, and the reply to the challenge that it gets.
abbrev announces : Gossip
announces = record { command = CommandType.key_auth_init; message = 4 ∷ 0 ∷ 3 ∷ [] }

abbrev challenged : Session
challenged = behind fresh (handle_gossip toy_suite (toy_key 4) fresh announces)

abbrev replies_to : Gossip
replies_to = record { command = CommandType.key_auth_challenge_reply; message = 15 ∷ 9 ∷ 8 ∷ [] }

abbrev trusted : Session
trusted = behind challenged (handle_gossip toy_suite (toy_key 4) challenged replies_to)

abbrev heard : List Gossip
heard = replies_to ∷ announces ∷ []

trusted-Run : Run toy_suite (toy_key 4) heard trusted
unfolding handle_gossip handle_command handle_key_auth_init init_in challenge_peer curve_tested
    challenge_with handle_key_auth_challenge_reply reply_in draw_challenge ecdh big_bytes digits
    set_bytes of_bytes new_tcp_peer wrapped
trusted-Run =
    hears replies_to trusted none
      (hears announces challenged none (connects "10.0.0.2:4680" []) refl) refl

knows_3 : get_public_key trusted.peer ≡ some (toy_key 3).public_key
unfolding get_public_key handle_gossip handle_command handle_key_auth_init init_in challenge_peer
    curve_tested challenge_with handle_key_auth_challenge_reply reply_in draw_challenge ecdh
    big_bytes digits set_bytes of_bytes new_tcp_peer wrapped
knows_3 = refl

get_public_key-Proven_example : Proven toy_suite (toy_key 3).public_key heard
get_public_key-Proven_example =
    get_public_key-Proven toy_suite (toy_key 4) heard trusted (toy_key 3).public_key trusted-Run
      knows_3

-- A frame of one byte, and half of another.
abbrev half : List ℕ
half = 1 ∷ 0 ∷ 0 ∷ 0 ∷ 0 ∷ 5 ∷ 0 ∷ []

read_loop-ends_example : read_loop toy_suite (toy_key 4) 8 fresh half ≢ unfinished
read_loop-ends_example = read_loop-ends toy_suite (toy_key 4) 8 fresh half (omega arith)

-- Two messages of the consensus that wait for a peer.
abbrev sender : TcpPeer
sender = send (send (new_tcp_peer "10.0.0.3:4680") (7 ∷ [])) (8 ∷ 6 ∷ [])

abbrev emptied : TcpPeer
emptied = record sender { consensus_messages = [] }

abbrev on_wire : List ℕ
on_wire = 2 ∷ 0 ∷ 0 ∷ 0 ∷ 4 ∷ 7 ∷ 3 ∷ 0 ∷ 0 ∷ 0 ∷ 4 ∷ 8 ∷ 6 ∷ []

sender_sends : send_consensus toy_suite sender ≡ some (emptied, on_wire)
unfolding send_consensus consensus_frames write_frame little_endian wrapped send new_tcp_peer
sender_sends = refl

fresh_alive : fresh.peer.died ≡ false
unfolding new_tcp_peer
fresh_alive = refl

read_loop-send_consensus_example :
    (read_loop toy_suite (toy_key 4) (length sender.consensus_messages + 3) fresh (on_wire ++ half)
      ≡ read_loop toy_suite
          (toy_key 4)
          3
          (record fresh { inbox = fresh.inbox ++ sender.consensus_messages })
          half)
    × (emptied ≡ record sender { consensus_messages = [] })
read_loop-send_consensus_example =
    read_loop-send_consensus toy_suite (toy_key 4) toy_coded sender emptied on_wire 3 fresh half
      sender_sends fresh_alive

-- An init message whose first coordinate takes 33 bytes.
abbrev too_long : Bytes
too_long =
    field
      (1 ∷ 1 ∷ 1 ∷ 1 ∷ 1 ∷ 1 ∷ 1 ∷ 1 ∷ 1 ∷ 1 ∷ 1 ∷ 1 ∷ 1 ∷ 1 ∷ 1 ∷ 1 ∷ 1 ∷ 1 ∷ 1 ∷ 1 ∷ 1 ∷ 1 ∷ 1 ∷ 1
        ∷ 1 ∷ 1 ∷ 1 ∷ 1 ∷ 1 ∷ 1 ∷ 1 ∷ 1 ∷ 1 ∷ [])
      (3 ∷ [])

-- It takes the process of a fresh connection down.
crashed :
    receive_frame toy_suite (toy_key 4) fresh (tag CommandType.key_auth_init ∷ too_long) ≡ panicked
unfolding receive_frame handle_gossip handle_command handle_key_auth_init init_in curve_tested
    new_tcp_peer set_bytes of_bytes
crashed = refl

receive_frame-crashes_example : (receive_frame toy_suite (toy_key 4) fresh (9 ∷ []) ≡ panicked) ↔ (
    (g : Gossip) × (toy_suite.unmarshal_gossip (9 ∷ []) ≡ some g)
    × Fatal toy_suite (toy_key 4) fresh g)
receive_frame-crashes_example =
    receive_frame-crashes toy_suite toy_draws toy_hashes (toy_key 4) fresh (9 ∷ [])

-- An agent over a participant of the toy group, with two peers.
abbrev agent : TcpAgent
agent =
    new_tcp_agent (started 2) (toy_key 4) (λ p. new_tcp_peer (if p == 0 then "left" else "right"))

abbrev with_two : TcpAgent
with_two = (add_peer (add_peer agent 0).0 1).0

started_bare : (started 2).peers ≡ []
unfolding init blank switch_round search_round new_round broadcast_round_change maximal_locked
    maximal maximal_unconfirmed
started_bare = refl

remove_peer_at-forgets_example :
    (among "left" (addresses (remove_peer_at with_two "left").0.consensus.peers) ≡ false)
    × ((b : String)
        → str_eq "left" b ≡ false
        → among b (addresses with_two.consensus.peers) ≡ true
        → among b (addresses (remove_peer_at with_two "left").0.consensus.peers) ≡ true)
remove_peer_at-forgets_example =
    remove_peer_at-forgets (toy 2) toy_suite (started 2) (toy_key 4)
      (λ p. new_tcp_peer (if p == 0 then "left" else "right")) with_two "left" started_bare
      (next (next here (adds 0 refl)) (adds 1 refl))
