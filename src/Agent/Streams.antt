-- ===== src/Agent/Streams.antt =====
-- What a peer reads of the stream that its counterpart writes.
use mathlib.Core.Option.{some-injective}
use bdls.Base.{
  ℕ, zero, suc, ◌+◌, ◌≤◌, ◌<◌, ◌≡◌, ◌≢◌, refl, sym, ap, ◌∙◌, List, [], ◌∷◌, ◌++◌, Option, none,
  some, Bool, true, false, not, arith, if◌then◌else◌, ltb, not-ltb, length,
}
use bdls.Message.{Bytes}
use bdls.Message.Signing.{PrivateKey}
use bdls.Agent.{CommandType, TcpPeer, Suite, Call, returned, panicked, max_message_length}
use bdls.Agent.Handshake.{Session, >>=-eq-some, wrapped, handle_gossip, handle_command}
use bdls.Agent.Framing.{
  Ended, unfinished, read_frame, write_frame, receive_frame, read_loop, continue, read_round,
  consensus_frames, send_consensus,
}
use bdls.Agent.Frames.{append_assoc, append_nil, read_frame-write_frame, Leaves, read_frame-Leaves}

continue-ends :
    (next : Session → Ended)
    → ((d : Session) → next d ≢ unfinished)
    → (o : Call Session) → continue next o ≢ unfinished
continue-ends next h panicked = λ e. cc
continue-ends next h (returned c (some x)) = λ e. cc
continue-ends next h (returned c none) = h c

guard_inversion :
    (t : Bool) (x : List ℕ) {y : List ℕ}
    → (if t then none else some x) ≡ some y
    → (t ≡ false) × (x ≡ y)
guard_inversion true x e = cc
guard_inversion false x e = (refl, some-injective _ _ e)

module _ (suite : Suite) (key : PrivateKey) where
  read_round-ends :
      (c : Session) (next : Session → List ℕ → Ended) (total : ℕ) (died : Bool)
      (frame : Option (Bytes × List ℕ))
      → Leaves 4 total frame
      → ((d : Session) (rest : List ℕ) → length rest < total → next d rest ≢ unfinished)
      → read_round suite key c next died frame ≢ unfinished
  read_round-ends c next total true frame h k = λ e. cc
  read_round-ends c next total false none h k = λ e. cc
  read_round-ends c next total false (some (bts, rest)) h k =
      continue-ends (λ d. next d rest) (λ d. k d rest (omega (arith, h)))
        (receive_frame suite key c bts)

  -- The loop of a peer comes to an end on every stream, whatever it holds: as many rounds as the
  -- stream has bytes, and one more, are enough.
  pub read_loop-ends :
      (fuel : ℕ) (c : Session) (stream : List ℕ)
      → length stream < fuel
      → read_loop suite key fuel c stream ≢ unfinished
  unfolding read_loop
  read_loop-ends zero c stream h = absurd (omega (arith, h))
  read_loop-ends (suc fuel) c stream h =
      read_round-ends c (λ d rest. read_loop suite key fuel d rest) (length stream) c.peer.died
        (read_frame stream) (read_frame-Leaves stream)
        (λ d rest shorter. read_loop-ends fuel d rest (omega (arith, h, shorter)))

  -- The loop on a frame, and on what follows it.
  read_loop-write_frame :
      (fuel : ℕ) (c : Session) (bts rest : List ℕ)
      → c.peer.died ≡ false
      → 0 < length bts
      → length bts ≤ max_message_length
      → read_loop suite key (suc fuel) c (write_frame bts ++ rest)
        ≡ continue (λ d. read_loop suite key fuel d rest) (receive_frame suite key c bts)
  unfolding read_loop
  read_loop-write_frame fuel c bts rest alive h k =
      let next = λ (d : Session) (rest : List ℕ). read_loop suite key fuel d rest in
      ap (λ (died : Bool). read_round suite key c next died (read_frame (write_frame bts ++ rest)))
        alive
      ∙ ap (read_round suite key c next false) (read_frame-write_frame bts rest h k)

  -- The conditions under which the messages of the consensus come through: Unmarshal gives back
  -- what Marshal was given, and what Marshal gives for them is not empty, since their command is not
  -- the default value.
  abbrev pub Coded : Type 0
  Coded =
      (m : Bytes)
      → (suite.unmarshal_gossip (wrapped suite CommandType.consensus m)
          ≡ some (record { command = CommandType.consensus; message = m }))
        × (0 < length (wrapped suite CommandType.consensus m))

  abbrev inbox_with : Session → List Bytes → Session
  inbox_with c ms = record c { inbox = c.inbox ++ ms }

  receive_frame-consensus :
      Coded
      → (c : Session) (m : Bytes)
      → receive_frame suite key c (wrapped suite CommandType.consensus m)
        ≡ returned (inbox_with c (m ∷ [])) none
  unfolding receive_frame handle_gossip handle_command
  receive_frame-consensus coded c m = rw (coded m).0 refl

  frames_inversion :
      (m : Bytes) (ms : List Bytes) {frames : List ℕ}
      → consensus_frames suite (m ∷ ms) ≡ some frames
      → (rest : List ℕ) × (consensus_frames suite ms ≡ some rest)
        × (length (wrapped suite CommandType.consensus m) ≤ max_message_length)
        × (frames ≡ write_frame (wrapped suite CommandType.consensus m) ++ rest)
  unfolding consensus_frames
  frames_inversion m ms e =
      let (rest, e1, e2) = >>=-eq-some (consensus_frames suite ms) _ e in
      let (fits, e3) = guard_inversion (ltb max_message_length _) _ e2 in
      (rest, e1, not-ltb max_message_length _ (ap not fits), sym e3)

  consensus_frames-nil : {frames : List ℕ} → consensus_frames suite [] ≡ some frames → [] ≡ frames
  unfolding consensus_frames
  consensus_frames-nil e = some-injective _ _ e

  read_loop-frames :
      Coded
      → (ms : List Bytes) (fuel : ℕ) (c : Session) (rest : List ℕ) {frames : List ℕ}
      → c.peer.died ≡ false
      → consensus_frames suite ms ≡ some frames
      → read_loop suite key (length ms + fuel) c (frames ++ rest)
        ≡ read_loop suite key fuel (inbox_with c ms) rest
  read_loop-frames coded [] fuel c rest {frames} alive e =
      let loop = read_loop suite key in
      let same : fuel ≡ 0 + fuel = omega arith in
      ap (λ (fs : List ℕ). loop (0 + fuel) c (fs ++ rest)) (sym (consensus_frames-nil e))
      ∙ ap (λ (n : ℕ). loop n c rest) (sym same)
      ∙ ap (λ (ms : List Bytes). loop fuel (record c { inbox = ms }) rest)
          (sym (append_nil c.inbox))
  read_loop-frames coded (m ∷ ms) fuel c rest {frames} alive e =
      let (later, e1, fits, e2) = frames_inversion m ms e in
      let loop = read_loop suite key in
      let out = wrapped suite CommandType.consensus m in
      let d = inbox_with c (m ∷ []) in
      let first =
        read_loop-write_frame (length ms + fuel) c out (later ++ rest) alive (coded m).1 fits in
      let count : suc (length ms) + fuel ≡ suc (length ms + fuel) = omega arith in
      ap (λ (n : ℕ). loop n c (frames ++ rest)) count
      ∙ ap (λ (fs : List ℕ). loop (suc (length ms + fuel)) c (fs ++ rest)) e2
      ∙ ap (loop (suc (length ms + fuel)) c) (append_assoc (write_frame out) later rest)
      ∙ first
      ∙ ap (continue (λ d. loop (length ms + fuel) d (later ++ rest)))
          (receive_frame-consensus coded c m)
      ∙ read_loop-frames coded ms fuel d rest alive e1
      ∙ ap (λ (all : List Bytes). loop fuel (record c { inbox = all }) rest)
          (append_assoc c.inbox (m ∷ []) ms)

  -- Where Unmarshal gives back what Marshal was given, the messages of the consensus that wait for a
  -- peer and are short enough to be sent reach the inbox of the agent at the other end, all of them
  -- and in order, and that peer then reads on behind them; the queue of the sender is empty.
  pub read_loop-send_consensus :
      Coded
      → (p p' : TcpPeer) (frames : List ℕ) (fuel : ℕ) (c : Session) (rest : List ℕ)
      → send_consensus suite p ≡ some (p', frames)
      → c.peer.died ≡ false
      → (read_loop suite key (length p.consensus_messages + fuel) c (frames ++ rest)
          ≡ read_loop suite key fuel (record c { inbox = c.inbox ++ p.consensus_messages }) rest)
        × (p' ≡ record p { consensus_messages = [] })
  unfolding send_consensus
  read_loop-send_consensus coded p p' frames fuel c rest e alive =
      let (fs, e1, e2) = >>=-eq-some (consensus_frames suite p.consensus_messages) _ e in
      let pair = some-injective _ _ e2 in
      (
        ap
              (λ (gs : List ℕ).
                read_loop suite key (length p.consensus_messages + fuel) c (gs ++ rest))
              (sym (ap (λ q. q.1) pair))
            ∙ read_loop-frames coded p.consensus_messages fuel c rest alive e1,
        sym (ap (λ q. q.0) pair),
      )
