-- ===== src/Consensus/Handlers.antt =====
-- The cases of `receiveMessage` in consensus.go, one function for each type of message.
use bdls.Base.{
  ℕ, ◌+◌, List, [], ◌∷◌, ◌++◌, map, Option, none, some, Bool, true, false, ◌&&◌, Outcome, ok, err,
  panic, ◌>>=◌, ◌>>◌, ltb, leb, ◌==◌, if◌then◌else◌, u64,
}
use bdls.Message.{Bytes, Message, SignedProto}
use bdls.Round.{
  Round, Stage, rank, Tuple, add_round_change, find_round_change, remove_round_change,
  num_round_changes, signed_round_changes, add_commit, num_committed, get_max_proposed,
}
use bdls.Consensus.State.{Consensus, Setup, quorum, current, write, set_round, set_stage}
use bdls.Consensus.Timing.{
  round_change_duration, collect_duration, lock_duration, commit_duration, time_add,
}
use bdls.Consensus.Rounds.{get_round, switch_round, round_leader, height_sync}
use bdls.Consensus.Proposals.{propose}
use bdls.Consensus.Verify.{
  verify_round_change, verify_lock, verify_lock_release, verify_select, verify_commit,
  verify_decide,
}
use bdls.Consensus.Send.{propagate, broadcast_round_change, broadcast_decide, send_commit}
use bdls.Consensus.Locks.{replace_lock, release_into, lock_release}

-- What the loop over the rounds leaves: the list, the heap, and whether it returned from the method.
pub record Scan : Type 0 where
  pub refs : List ℕ
  pub heap : ℕ → Round
  pub stop : Bool

abbrev pub prepend : ℕ → Outcome Scan → Outcome Scan
prepend p (ok r) = ok (record r { refs = p ∷ r.refs })
prepend p (err e) = err e
prepend p panic = panic

-- The round `p` after the message at `idx` is removed from it; an empty round leaves the list.
unfoldable pub drop_message :
    (ℕ → Round) → ℕ → ((ℕ → Round) → Outcome Scan) → Outcome Round → Outcome Scan
drop_message heap p again (ok r) =
    let rest = again (write heap p r) in if num_round_changes r == 0 then rest else prepend p rest
drop_message heap p again (err e) = err e
drop_message heap p again panic = panic

-- One round of the loop, at the round `p` in front of `ps`, in which the signer's message stands at
-- an index or nowhere; `again` is the rest of the loop.
unfoldable pub scan_one :
    ℕ → ℕ → (ℕ → Round) → ℕ → List ℕ → ((ℕ → Round) → Outcome Scan) → Option ℕ → Outcome Scan
unfolding drop_message
scan_one cur round heap p ps again none = prepend p (again heap)
scan_one cur round heap p ps again (some idx) =
    if round == cur
    then prepend p (again heap)
    else if ltb round (heap p).round_number
    then ok (record { refs = p ∷ ps; heap = heap; stop = true })
    else if ltb (heap p).round_number round
    then drop_message heap p again (remove_round_change (heap p) idx)
    else prepend p (again heap)

-- The loop over the rounds on <roundchange>: `cur` is the number of the current round, `round` that
-- of the message, `x` and `y` are the axes of its signer.
unfoldable pub scan_rounds : ℕ → ℕ → ℕ → ℕ → (ℕ → Round) → List ℕ → Outcome Scan
unfolding scan_one
scan_rounds cur round x y heap [] = ok (record { refs = []; heap = heap; stop = false })
scan_rounds cur round x y heap (p ∷ ps) =
    scan_one cur round heap p ps (λ h. scan_rounds cur round x y h ps)
      (find_round_change (heap p) x y)

module _ (s : Setup) where
  -- 2t + 1 <roundchange> messages are there: enter the lock stage of the round.
  unfoldable pub enter_lock : Consensus → ℕ → ℕ → Outcome Consensus
  enter_lock c round now = do
    let c1 = switch_round c round
    let c2 = record c1 { last_round_change_proof = some (signed_round_changes (current c1)) }
    let c3 = broadcast_round_change s c2
    leader ← round_leader s round
    let wait =
        if leader == s.identity
        then collect_duration c3.latency round
        else lock_duration c3.latency round
    ok (set_stage (record c3 { lock_timeout = time_add now wait }) Stage.lock)

  -- `round.MaxProposedState, round.MaxProposedCount = round.GetMaxProposed()`.
  abbrev pub set_max : Consensus → ℕ → Consensus
  set_max c p =
      let (r, st, count) = get_max_proposed (c.heap p) in
      set_round c p (record r { max_proposed_state = st; max_proposed_count = count })

  -- The leader of the current round tracks the most proposed state.
  unfoldable pub track_max : Consensus → ℕ → ℕ → Outcome Consensus
  track_max c p round =
      if p == c.current_round && leb (quorum s) (num_round_changes (c.heap p))
      then (do leader ← round_leader s round; ok (if leader == s.identity then set_max c p else c))
      else ok c

  -- What follows the loop over the rounds.
  unfoldable pub accept_round_change : Consensus → Message → SignedProto → ℕ → Outcome Consensus
  unfolding enter_lock track_max
  accept_round_change c m signed now =
      let (c1, p) = get_round c m.round false in
      let (r, added) = add_round_change s.state_hash (c1.heap p) signed m in
      if added
      then (do
        let c2 = set_round c1 p r
        c3 ←
            if num_round_changes r == quorum s && ltb (rank r.stage) (rank Stage.lock)
            then enter_lock c2 m.round now
            else ok c2
        track_max c3 p m.round)
      else ok c1

  -- `case MessageType_RoundChange`.
  unfoldable pub on_round_change : Consensus → Message → SignedProto → ℕ → Outcome Consensus
  on_round_change c m signed now = do
    verify_round_change s c m
    scan ← scan_rounds (current c).round_number m.round signed.x signed.y c.heap c.rounds
    let c1 = record c { rounds = scan.refs; heap = scan.heap }
    if scan.stop then ok c1 else accept_round_change c1 m signed now

  -- `if m.Round > c.currentRound.RoundNumber` on <select> and <lock>.
  unfoldable pub follow_round : Consensus → ℕ → SignedProto → Consensus
  follow_round c round signed =
      if ltb (current c).round_number round
      then record (switch_round c round) { last_round_change_proof = some (signed ∷ []) }
      else c

  -- A <select> message takes the round to the lock-release stage, once.
  unfoldable pub enter_selected : Consensus → Message → ℕ → Consensus
  enter_selected c1 m now =
      if ltb (rank (current c1).stage) (rank Stage.lock_release)
      then (let c2 = set_stage c1 Stage.lock_release in
          let c3 = record c2 {
            lock_release_timeout = time_add now (commit_duration c2.latency m.round);
          } in
          propose s (lock_release s c3) m.state)
      else c1

  -- `case MessageType_Select`.
  unfoldable pub on_select : Consensus → Message → SignedProto → ℕ → Outcome Consensus
  on_select c m signed now = do
    verify_select s c m signed
    ok (enter_selected (follow_round c m.round signed) m now)

  -- A <lock> message takes the round to the commit stage, once, and is locked.
  unfoldable pub enter_locked : Consensus → Message → SignedProto → ℕ → Consensus
  enter_locked c1 m signed now =
      let new : Tuple = record {
        state_hash = s.state_hash m.state;
        message = m;
        signed = signed;
      } in
      if ltb (rank (current c1).stage) (rank Stage.commit)
      then record (set_stage c1 Stage.commit) {
        commit_timeout = time_add now (commit_duration c1.latency m.round);
        locks = replace_lock new c1.locks;
      }
      else c1

  -- `case MessageType_Lock`.
  unfoldable pub on_lock : Consensus → Message → SignedProto → ℕ → Outcome Consensus
  on_lock c m signed now = do
    verify_lock s c m signed
    let c1 = follow_round c m.round signed
    send_commit s (enter_locked c1 m signed now) m

  -- The embedded <lock> message, if there is one, goes into the locks.
  unfoldable pub release_lock : Consensus → Option SignedProto → Outcome Consensus
  release_lock c none = do lockmsg ← verify_lock_release s c none; ok c
  release_lock c (some signed) = do
    lockmsg ← verify_lock_release s c (some signed)
    let new : Tuple = record {
      state_hash = s.state_hash lockmsg.state;
      message = lockmsg;
      signed = signed;
    }
    ok (record c { locks = release_into new c.locks })

  -- `case MessageType_LockRelease`.
  unfoldable pub on_lock_release : Consensus → Message → Outcome Consensus
  unfolding release_lock
  on_lock_release c m = release_lock c m.lock_release

  -- The leader has collected 2t + 1 commits: decide, and start the next height.
  unfoldable pub decide : Consensus → ℕ → Consensus
  decide c now =
      let (c1, sp) = broadcast_decide s c in
      let c2 = record c1 { latest_proof = some sp } in
      let c3 =
        height_sync c2 (u64 (c2.latest_height + 1)) (current c2).round_number
          (current c2).locked_state in
      broadcast_round_change s (record c3 {
        rc_timeout = time_add now (u64 (round_change_duration c3.latency 0 + c3.latency));
      })

  -- A <commit> message that has passed the check.
  unfoldable pub add_committed : Consensus → Message → SignedProto → ℕ → Consensus
  add_committed c m signed now =
      let (r, added) = add_commit s.state_hash (current c) signed m in
      let c1 = set_round c c.current_round r in
      if added && leb (quorum s) (num_committed r) then decide c1 now else c1

  -- `case MessageType_Commit`.
  unfoldable pub on_commit : Consensus → Message → SignedProto → ℕ → Outcome Consensus
  on_commit c m signed now = do
    leader ← round_leader s m.round
    if leader == s.identity
        then (verify_commit s c m >> ok (add_committed c m signed now))
        else ok c

  -- `case MessageType_Decide`.
  unfoldable pub on_decide : Consensus → Bytes → Message → SignedProto → ℕ → Outcome Consensus
  on_decide c bts m signed now = do
    verify_decide s c m signed
    let c1 = propagate (record c { latest_proof = some signed }) bts
    let c2 = height_sync c1 m.height m.round m.state
    ok (
        broadcast_round_change s
          (record c2 { rc_timeout = time_add now (round_change_duration c2.latency 0) }))

  -- `case MessageType_Resync`.
  unfoldable pub on_resync : Consensus → Message → Consensus
  on_resync c m = record c { loopback = c.loopback ++ map s.lib.marshal_signed m.proof }
