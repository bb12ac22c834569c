-- ===== src/Consensus/Ticking.antt =====
-- `Update` of consensus.go, the order of the rounds and the number of the current one.
use bdls.Base.{
  ℕ, ◌+◌, ◌<◌, refl, ◌∙◌, arith, leb, ◌==◌, inr, ◌||◌, Ensures, Ensures-map, >>=-Ensures, if_cases,
  length, u64, word,
}
use bdls.Round.{Stage, num_round_changes, round_change_states}
use bdls.Consensus.State.{Consensus, Setup, current, quorum, set_round, set_stage}
use bdls.Consensus.Rounds.{switch_round, round_leader}
use bdls.Consensus.Timing.{time_add, lock_release_duration, after, is_zero}
use bdls.Consensus.Proposals.{propose_all}
use bdls.Consensus.Send.{broadcast_round_change, broadcast_lock, broadcast_select}
use bdls.Consensus.InOrder.{
  InOrder, Frame, Frame-refl, SameCore-trans, InOrder-Frame, current-Frame, set_round-Frame,
  switch_round-InOrder,
}
use bdls.Consensus.Frames.{
  set_stage-Frame, broadcast_round_change-Frame, broadcast_resync-Frame, broadcast_lock-Frame,
  broadcast_select-Frame, lock_release-Frame, propose_all-Frame,
}
use bdls.Consensus.Progress.{NotBehind, Advances-Frame}
use bdls.Consensus.Update.{
  update_round_changing, lock_proposed, select_proposed, on_leader, update_lock, update_commit,
  update_lock_release, tick_in, tick,
}

module _ (s : Setup) where
  update_round_changing-Frame :
      (c : Consensus) (now : ℕ) → Ensures (Frame c) (update_round_changing s c now)
  unfolding update_round_changing
  update_round_changing-Frame c now =
      if_cases (Ensures (Frame c)) (is_zero c.rc_timeout) _ _ (λ _. tt)
        (λ _.
          if_cases (Ensures (Frame c)) (after now c.rc_timeout) _ _
            (λ _.
              SameCore-trans (broadcast_round_change-Frame s c)
                (broadcast_resync-Frame s (broadcast_round_change s c)))
            (λ _. Frame-refl c))

  lock_proposed-Frame : (c : Consensus) (now : ℕ) → Frame c (lock_proposed s c now)
  unfolding lock_proposed
  lock_proposed-Frame c now =
      let r = current c in
      let c1 = set_round c c.current_round (record r {
        locked_state = r.max_proposed_state;
        locked_state_hash = s.state_hash r.max_proposed_state;
      }) in
      SameCore-trans
        (set_round-Frame c c.current_round
          (record r {
            locked_state = r.max_proposed_state;
            locked_state_hash = s.state_hash r.max_proposed_state;
          })
          refl)
        (SameCore-trans (broadcast_lock-Frame s c1)
          (set_stage-Frame (broadcast_lock s c1) Stage.commit))

  select_proposed-Frame : (c : Consensus) (now : ℕ) → Frame c (select_proposed s c now)
  unfolding select_proposed
  select_proposed-Frame c now =
      let states = round_change_states (current c) in
      let c1 = propose_all s c states in
      let c2 = set_stage (broadcast_select s c1) Stage.lock_release in
      let wait = lock_release_duration c2.latency (current c2).round_number + c2.latency in
      SameCore-trans (propose_all-Frame s c states) (
        SameCore-trans (broadcast_select-Frame s c1) (
          SameCore-trans (set_stage-Frame (broadcast_select s c1) Stage.lock_release)
            (lock_release-Frame s (record c2 { lock_release_timeout = time_add now (u64 wait) }))))

  on_leader-Frame : (c : Consensus) (leader now : ℕ) → Frame c (on_leader s c leader now)
  unfolding on_leader
  on_leader-Frame c leader now =
      if_cases (Frame c) (leader == s.identity) _ _
        (λ _.
          if_cases (Frame c) (leb (quorum s) (current c).max_proposed_count) _ _
            (λ _. lock_proposed-Frame c now)
            (λ _.
              if_cases (Frame c)
                (num_round_changes (current c) == length s.participants || after now c.lock_timeout)
                _ _ (λ _. select_proposed-Frame c now) (λ _. Frame-refl c)))
        (λ _.
          if_cases (Frame c) (after now c.lock_timeout) _ _ (λ _. set_stage-Frame c Stage.commit)
            (λ _. Frame-refl c))

  update_lock-Frame : (c : Consensus) (now : ℕ) → Ensures (Frame c) (update_lock s c now)
  unfolding update_lock
  update_lock-Frame c now =
      if_cases (Ensures (Frame c)) (is_zero c.lock_timeout) _ _ (λ _. tt)
        (λ _.
          >>=-Ensures (Frame c) (round_leader s (current c).round_number) _
            (λ leader _. on_leader-Frame c leader now))

  update_commit-Frame : (c : Consensus) (now : ℕ) → Ensures (Frame c) (update_commit s c now)
  unfolding update_commit
  update_commit-Frame c now =
      let c1 = set_stage c Stage.lock_release in
      let wait = lock_release_duration c1.latency (current c1).round_number in
      if_cases (Ensures (Frame c)) (is_zero c.commit_timeout) _ _ (λ _. tt)
        (λ _.
          if_cases (Ensures (Frame c)) (after now c.commit_timeout) _ _
            (λ _.
              SameCore-trans (set_stage-Frame c Stage.lock_release)
                (lock_release-Frame s (record c1 { lock_release_timeout = time_add now wait })))
            (λ _. Frame-refl c))

  -- In order, and not behind unless the round's number wraps.
  abbrev pub Onward : Consensus → Consensus → Type 0
  Onward c d = InOrder d × ((current c).round_number + 1 < word → NotBehind c d)

  update_lock_release-Onward :
      (c : Consensus) (now : ℕ) → InOrder c → Ensures (Onward c) (update_lock_release s c now)
  unfolding update_lock_release
  update_lock_release-Onward c now i =
      let c1 = set_stage c Stage.round_changing in
      let next = u64 ((current c1).round_number + 1) in
      let c2 = switch_round c1 next in
      let staged = set_stage-Frame c Stage.round_changing in
      let i1 = InOrder-Frame c c1 staged i in
      let (order, hit, height) = switch_round-InOrder c1 next i1.ascending i1.allocated in
      let sent = broadcast_round_change-Frame s c2 in
      if_cases (Ensures (Onward c)) (is_zero c.lock_release_timeout) _ _ (λ _. tt)
        (λ _.
          if_cases (Ensures (Onward c)) (after now c.lock_release_timeout) _ _
            (λ _. (
              InOrder-Frame c2 _ sent order,
              λ fits. inr (
                sent.same_height ∙ height ∙ staged.same_height,
                omega (
                  arith,
                  hit,
                  current-Frame c c1 staged,
                  current-Frame c2 (broadcast_round_change s c2) sent,
                ),
              ),
            ))
            (λ _. (i, λ _. (Advances-Frame c c (Frame-refl c) i).not_behind)))

  Frame-Onward : (c : Consensus) → InOrder c → (d : Consensus) → Frame c d → Onward c d
  Frame-Onward c i d f = let a = Advances-Frame c d f i in (a.in_order, λ _. a.not_behind)

  -- Whatever the stage and the time, where `Update` does not panic it keeps the list of rounds in
  -- order, and neither height nor round goes back unless the round is the last uint64.
  pub tick-Onward : (c : Consensus) (now : ℕ) → InOrder c → Ensures (Onward c) (tick s c now)
  unfolding tick tick_in
  tick-Onward c now i = staged (current c).stage
    where
      staged : (st : Stage) → Ensures (Onward c) (tick_in s st c now)
      staged Stage.round_changing =
          Ensures-map (Frame c) (Onward c) _ (Frame-Onward c i) (update_round_changing-Frame c now)
      staged Stage.lock =
          Ensures-map (Frame c) (Onward c) _ (Frame-Onward c i) (update_lock-Frame c now)
      staged Stage.commit =
          Ensures-map (Frame c) (Onward c) _ (Frame-Onward c i) (update_commit-Frame c now)
      staged Stage.lock_release = update_lock_release-Onward c now i
