-- ===== src/Consensus/Send.antt =====
-- Sending in consensus.go: broadcast, sendTo, propagate and the messages that the object makes.
use bdls.Base.{
  ℕ, suc, ◌+◌, List, [], ◌∷◌, ◌++◌, map, Option, none, some, Bool, true, false, not, ◌&&◌, Outcome,
  ok, ◌>>=◌, ◌==◌, if◌then◌else◌, u64,
}
use bdls.Message.{Bytes, State, Message, MessageType, SignedProto, PublicKey, empty_message}
use bdls.Message.Signing.{sign}
use bdls.Round.{Stage, signed_round_changes, signed_commits}
use bdls.Consensus.State.{Consensus, Setup, Output, callback, transmit, Peer, current, set_round}
use bdls.Consensus.Rounds.{round_leader}
use bdls.Consensus.Proposals.{maximal_locked, maximal_unconfirmed}

-- `peer.Send(out)` for one peer after the other.
abbrev pub to_all : List Peer → Bytes → List Output
to_all peers out = map (λ p. transmit p out) peers

-- `propagate`.
unfoldable pub propagate : Consensus → Bytes → Consensus
propagate c bts = record c { outputs = c.outputs ++ to_all c.peers bts }

abbrev pub is_changing : Stage → Bool
is_changing Stage.round_changing = true
is_changing _ = false

-- A new message of a kind at the next height and the current round.
abbrev pub next_message : Consensus → MessageType → Message
next_message c kind = record empty_message {
  kind = kind;
  height = u64 (c.latest_height + 1);
  round = (current c).round_number;
}

module _ (s : Setup) where
  -- Signing and the call of `messageOutCallback`, with which both ways of sending begin.
  unfoldable pub seal : Consensus → Message → Consensus × SignedProto
  seal c m =
      let sp = sign s.lib c.rand m s.private_key in
      (
        record c {
          rand = suc c.rand;
          outputs = if s.has_callback then c.outputs ++ callback m sp ∷ [] else c.outputs;
        },
        sp,
      )

  -- `broadcast`.
  unfoldable pub broadcast : Consensus → Message → Consensus × SignedProto
  unfolding seal
  broadcast c m =
      let (c1, sp) = seal c m in
      let out = s.lib.marshal_signed sp in
      (
        record c1 {
          outputs = c1.outputs ++ to_all c1.peers out;
          loopback = c1.loopback ++ out ∷ [];
        },
        sp,
      )

  abbrev is_key_of : ℕ → Option PublicKey → Bool
  is_key_of leader none = false
  is_key_of leader (some pk) = s.pub_key_to_identity pk == leader

  -- The loop of `sendTo` over the peers.
  unfoldable pub to_leader : ℕ → Bytes → List Peer → List Output
  to_leader leader out [] = []
  to_leader leader out (p ∷ ps) =
      let rest = to_leader leader out ps in
      if is_key_of leader p.key then transmit p out ∷ rest else rest

  -- `sendTo`.
  unfoldable pub send_to : Consensus → Message → ℕ → Consensus
  unfolding seal to_leader
  send_to c m leader =
      let (c1, sp) = seal c m in
      let out = s.lib.marshal_signed sp in
      if leader == s.identity
      then record c1 { loopback = c1.loopback ++ out ∷ [] }
      else record c1 { outputs = c1.outputs ++ to_leader leader out c1.peers }

  -- What <roundchange> proposes: the maximal locked state, else the maximal unconfirmed one.
  unfoldable pub proposal : Consensus → State
  proposal c = elim (maximal_locked s c) [ none ↦ maximal_unconfirmed s c | some b ↦ some b ]

  -- The <roundchange> message for a state, if there is one.
  unfoldable pub send_round_change : Consensus → State → Consensus
  send_round_change c none = c
  send_round_change c (some b) =
      let m = record (next_message c MessageType.round_change) { state = some b } in
      let c1 = (broadcast c m).0 in
      set_round c1 c1.current_round (record (current c1) { round_change_sent = true })

  -- `broadcastRoundChange`.
  unfoldable pub broadcast_round_change : Consensus → Consensus
  unfolding proposal send_round_change
  broadcast_round_change c =
      if (current c).round_change_sent && not (is_changing (current c).stage)
      then c
      else send_round_change c (proposal c)

  -- `broadcastLock`.
  unfoldable pub broadcast_lock : Consensus → Consensus
  broadcast_lock c =
      (broadcast c (record (next_message c MessageType.lock) {
        state = (current c).locked_state;
        proof = signed_round_changes (current c);
      })).0

  -- `broadcastLockRelease`.
  unfoldable pub broadcast_lock_release : Consensus → SignedProto → Consensus
  broadcast_lock_release c signed =
      (broadcast c
        (record (next_message c MessageType.lock_release) { lock_release = some signed })).0

  -- `broadcastSelect`.
  unfoldable pub broadcast_select : Consensus → Consensus
  broadcast_select c =
      (broadcast c (record (next_message c MessageType.select) {
        state = maximal_unconfirmed s c;
        proof = signed_round_changes (current c);
      })).0

  -- `broadcastDecide`, which gives back what it has sent.
  unfoldable pub broadcast_decide : Consensus → Consensus × SignedProto
  broadcast_decide c = broadcast c (record (next_message c MessageType.decide) {
    state = (current c).locked_state;
    proof = signed_commits (current c);
  })

  abbrev pub send_resync : Consensus → Option (List SignedProto) → Consensus
  send_resync c none = c
  send_resync c (some proof) =
      (broadcast c (record empty_message { kind = MessageType.resync; proof = proof })).0

  -- `broadcastResync`; height and round of the message stay 0.
  unfoldable pub broadcast_resync : Consensus → Consensus
  broadcast_resync c = send_resync c c.last_round_change_proof

  -- The <commit> message, to the leader or to all.
  unfoldable pub deliver_commit : Consensus → Message → Outcome Consensus
  deliver_commit c m =
      if s.enable_commit_unicast
      then (do leader ← round_leader s m.round; ok (send_to c m leader))
      else ok (broadcast c m).0

  abbrev pub mark_committed : Consensus → Consensus
  mark_committed c = set_round c c.current_round (record (current c) { commit_sent = true })

  abbrev pub commit_message : Message → Message
  commit_message lockmsg = record empty_message {
    kind = MessageType.commit;
    height = lockmsg.height;
    round = lockmsg.round;
    state = lockmsg.state;
  }

  -- `sendCommit`.
  unfoldable pub send_commit : Consensus → Message → Outcome Consensus
  unfolding deliver_commit
  send_commit c lockmsg =
      if (current c).commit_sent
      then ok c
      else (do c1 ← deliver_commit c (commit_message lockmsg); ok (mark_committed c1))
