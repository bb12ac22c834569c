-- ===== src/Agent/Framing.antt =====
-- readLoop and sendLoop of tcp_peer.go: messages as length-prefixed frames on a stream of bytes.
-- A stream ends where the connection fails; what sendLoop writes is taken by the connection.
use bdls.Base.{
  ℕ, zero, suc, ◌+◌, ◌*◌, ◌%◌, ◌^◌, List, [], ◌∷◌, ◌++◌, Option, none, some, Bool, true, false,
  if◌then◌else◌, ◌==◌, ◌||◌, ltb, length,
}
use bdls.Message.{Bytes}
use bdls.Message.Signing.{PrivateKey, little_endian}
use bdls.Agent.{
  CommandType, Gossip, AgentError, TcpPeer, Suite, Call, returned, panicked, message_length,
  max_message_length,
}
use bdls.Agent.Handshake.{Session, ◌>>=◌, wrapped, handle_gossip}

-- `binary.LittleEndian.Uint32`.
unfoldable pub of_little_endian : List ℕ → ℕ
of_little_endian [] = 0
of_little_endian (b ∷ bs) = b + 256 * of_little_endian bs

-- `io.ReadFull` of so many bytes, with what is left of the stream.
unfoldable pub read_full : ℕ → List ℕ → Option (Bytes × List ℕ)
read_full zero stream = some ([], stream)
read_full (suc n) [] = none
read_full (suc n) (b ∷ stream) = do (bs, rest) ← read_full n stream; some (b ∷ bs, rest)

-- The body of `readLoop` down to the bytes of a message.
unfoldable pub read_frame : List ℕ → Option (Bytes × List ℕ)
unfolding read_full of_little_endian
read_frame stream = do
  (header, rest) ← read_full message_length stream
  (let size = of_little_endian header in
      if ltb max_message_length size || size == 0 then none else read_full size rest)

-- What `sendLoop` writes for a message.
unfoldable pub write_frame : Bytes → List ℕ
write_frame bts = little_endian message_length (length bts % 2 ^ 32) ++ bts

-- How a loop over a connection ends; `unfinished` is a lack of fuel.
pub data Ended : Type 0 where
  closed : Session → Ended
  crashed : Ended
  unfinished : Ended

-- `p.Close()`, which every return of the loop comes to.
abbrev pub close_peer : Session → Session
close_peer c = record c { peer = record c.peer { died = true } }

-- The loop goes on behind a message without an error.
abbrev pub continue : (Session → Ended) → Call Session → Ended
continue next panicked = crashed
continue next (returned c (some e)) = closed (close_peer c)
continue next (returned c none) = next c

module _ (suite : Suite) (key : PrivateKey) where
  -- A message that has been read: decoded, and handled.
  abbrev pub handle_decoded : Session → Option Gossip → Call Session
  handle_decoded c none = returned c (some AgentError.unmarshal)
  handle_decoded c (some g) = handle_gossip suite key c g

  unfoldable pub receive_frame : Session → Bytes → Call Session
  receive_frame c bts = handle_decoded c (suite.unmarshal_gossip bts)

  -- A round of the loop: whether the peer has been closed, and the message that was read.
  abbrev pub read_round :
      Session → (Session → List ℕ → Ended) → Bool → Option (Bytes × List ℕ) → Ended
  read_round c next true frame = closed (close_peer c)
  read_round c next false none = closed (close_peer c)
  read_round c next false (some (bts, rest)) = continue (λ d. next d rest) (receive_frame c bts)

  -- `readLoop` on what is left of the stream, for as many messages as the fuel allows.
  unfoldable pub read_loop : ℕ → Session → List ℕ → Ended
  read_loop zero c stream = unfinished
  read_loop (suc fuel) c stream =
      read_round c (λ d rest. read_loop fuel d rest) c.peer.died (read_frame stream)

-- The case of `sendLoop` for the messages of the consensus: the frames of those that wait, and none
-- where one is too long and the code panics.
unfoldable pub consensus_frames : Suite → List Bytes → Option (List ℕ)
unfolding write_frame
consensus_frames suite [] = some []
consensus_frames suite (bts ∷ pending) = do
  rest ← consensus_frames suite pending
  (let out = wrapped suite CommandType.consensus bts in
      if ltb max_message_length (length out) then none else some (write_frame out ++ rest))

unfoldable pub send_consensus : Suite → TcpPeer → Option (TcpPeer × List ℕ)
send_consensus suite p = do
  frames ← consensus_frames suite p.consensus_messages
  some (record p { consensus_messages = [] }, frames)

-- The case of `sendLoop` for the messages of the agent.
unfoldable pub agent_frames : List Bytes → List ℕ
unfolding write_frame
agent_frames [] = []
agent_frames (bts ∷ pending) = write_frame bts ++ agent_frames pending

unfoldable pub send_agent : TcpPeer → TcpPeer × List ℕ
send_agent p = (record p { agent_messages = [] }, agent_frames p.agent_messages)
