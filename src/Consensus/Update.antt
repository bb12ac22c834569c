-- ===== src/Consensus/Update.antt =====
-- `Update` of consensus.go: what the passing of time does in each stage. A panic is raised where
-- the timeout of the stage has not been set.
use bdls.Base.{
  ℕ, ◌+◌, Option, none, ◌||◌, Outcome, ok, panic, ◌>>=◌, leb, ◌==◌, if◌then◌else◌, length, u64,
}
use bdls.Round.{Stage, num_round_changes, round_change_states}
use bdls.Consensus.State.{Consensus, Setup, quorum, current, set_round, set_stage}
use bdls.Consensus.Timing.{
  round_change_duration, commit_duration, lock_release_duration, time_add, after, is_zero,
}
use bdls.Consensus.Rounds.{switch_round, round_leader}
use bdls.Consensus.Proposals.{propose_all}
use bdls.Consensus.Send.{broadcast_round_change, broadcast_resync, broadcast_lock, broadcast_select}
use bdls.Consensus.Locks.{lock_release}
use bdls.Consensus.Receive.{drain}

module _ (s : Setup) where
  -- The timeout of a round in the round-changing stage.
  abbrev set_rc_timeout : Consensus → ℕ → Consensus
  set_rc_timeout c now = record c {
    rc_timeout = time_add now (round_change_duration c.latency (current c).round_number);
  }

  -- `case stageRoundChanging`.
  unfoldable pub update_round_changing : Consensus → ℕ → Outcome Consensus
  update_round_changing c now =
      if is_zero c.rc_timeout
      then panic
      else if after now c.rc_timeout
      then ok (set_rc_timeout (broadcast_resync s (broadcast_round_change s c)) now)
      else ok c

  -- The leader locks the most proposed state.
  unfoldable pub lock_proposed : Consensus → ℕ → Consensus
  lock_proposed c now =
      let r = current c in
      let c1 = set_round c c.current_round (record r {
        locked_state = r.max_proposed_state;
        locked_state_hash = s.state_hash r.max_proposed_state;
      }) in
      let c2 = set_stage (broadcast_lock s c1) Stage.commit in
      record c2 {
        commit_timeout =
            time_add now (u64 (commit_duration c2.latency (current c2).round_number + c2.latency));
      }

  -- The leader gives the selection up to all participants.
  unfoldable pub select_proposed : Consensus → ℕ → Consensus
  select_proposed c now =
      let c1 = propose_all s c (round_change_states (current c)) in
      let c2 = set_stage (broadcast_select s c1) Stage.lock_release in
      lock_release s (record c2 {
        lock_release_timeout =
            time_add now
              (u64 (lock_release_duration c2.latency (current c2).round_number + c2.latency));
      })

  -- What the leader, or another participant, does in the lock stage.
  unfoldable pub on_leader : Consensus → ℕ → ℕ → Consensus
  on_leader c leader now =
      if leader == s.identity
      then (if leb (quorum s) (current c).max_proposed_count
          then lock_proposed c now
          else if num_round_changes (current c) == length s.participants || after now c.lock_timeout
          then select_proposed c now
          else c)
      else if after now c.lock_timeout
      then (let c1 = set_stage c Stage.commit in
          record c1 {
            commit_timeout = time_add now (commit_duration c1.latency (current c1).round_number);
          })
      else c

  -- `case stageLock`.
  unfoldable pub update_lock : Consensus → ℕ → Outcome Consensus
  update_lock c now =
      if is_zero c.lock_timeout
      then panic
      else (do leader ← round_leader s (current c).round_number; ok (on_leader c leader now))

  -- `case stageCommit`.
  unfoldable pub update_commit : Consensus → ℕ → Outcome Consensus
  update_commit c now =
      if is_zero c.commit_timeout
      then panic
      else if after now c.commit_timeout
      then (let c1 = set_stage c Stage.lock_release in
          ok (
            lock_release s (record c1 {
              lock_release_timeout =
                  time_add now (lock_release_duration c1.latency (current c1).round_number);
            })))
      else ok c

  -- `case stageLockRelease`.
  unfoldable pub update_lock_release : Consensus → ℕ → Outcome Consensus
  update_lock_release c now =
      if is_zero c.lock_release_timeout
      then panic
      else if after now c.lock_release_timeout
      then (let c1 = set_stage c Stage.round_changing in
          let c2 = switch_round c1 (u64 ((current c1).round_number + 1)) in
          ok (set_rc_timeout (broadcast_round_change s c2) now))
      else ok c

  -- The `switch` of `Update` on the stage.
  unfoldable pub tick_in : Stage → Consensus → ℕ → Outcome Consensus
  tick_in Stage.round_changing c now = update_round_changing c now
  tick_in Stage.lock c now = update_lock c now
  tick_in Stage.commit c now = update_commit c now
  tick_in Stage.lock_release c now = update_lock_release c now

  -- `Update`, without the deferred loop.
  unfoldable pub tick : Consensus → ℕ → Outcome Consensus
  unfolding tick_in
  tick c now = tick_in (current c).stage c now

  -- `Update`.
  unfoldable pub update : ℕ → Consensus → ℕ → Option Consensus
  update fuel c now = elim (tick c now) [ ok c' ↦ drain s fuel c' now | _ ↦ none ]
