-- ===== src/Consensus/Votes/Steps.antt =====
-- The runs of consensus.go, and the messages in the rounds.
use mathlib.Core.Option.{some-injective}
use text.Mathlib.Text.{◌==◌ as str_eq}
use bdls.Base.{
  ℕ, ◌+◌, ◌≡◌, sym, subst, List, [], ◌∷◌, some, Bool, ◌||◌, ◌==◌, leb, if_cases, any_of, length,
  Outcome, ok, err, panic, Ensures, Ensures-eq, >>=-Ensures, u64,
}
use bdls.Message.{Bytes}
use bdls.Round.{Stage, num_round_changes, round_change_states}
use bdls.Consensus.State.{Consensus, Setup, Peer, current, quorum, set_round, set_stage}
use bdls.Consensus.Timing.{after, is_zero}
use bdls.Consensus.Rounds.{switch_round, round_leader}
use bdls.Consensus.Proposals.{propose_all}
use bdls.Consensus.Send.{broadcast, seal, broadcast_round_change, broadcast_lock, broadcast_select}
use bdls.Consensus.Receive.{receive, settle, drain_from, drain_one}
use bdls.Consensus.Update.{
  update_round_changing, lock_proposed, select_proposed, on_leader, update_lock, update_commit,
  update_lock_release, tick_in, tick,
}
use bdls.Consensus.Peers.{join, leave, set_latency}
use bdls.Consensus.Config.{Config, init, blank}
use bdls.Consensus.InOrder.{InOrder, InOrder-Frame, Frame-refl}
use bdls.Consensus.Reachable.{
  Step, receives, ticks, drains, proposes, joins, leaves, sets_latency, Reach, here, next,
  Reach-InOrder,
}
use bdls.Consensus.Votes.{AllKept, write-Kept, new_round-Kept}
use bdls.Consensus.Votes.Sending.{
  set_stage-Kept, switch_round-Kept, broadcast_round_change-Kept, broadcast_resync-Kept,
  lock_release-Kept, propose-Kept, propose_all-Kept,
}
use bdls.Consensus.Votes.Handling.{receive-Kept}

module _ (s : Setup) where
  update_round_changing-Kept :
      (c : Consensus) (now : ℕ) → AllKept s c → Ensures (AllKept s) (update_round_changing s c now)
  unfolding update_round_changing
  update_round_changing-Kept c now k =
      if_cases (Ensures (AllKept s)) (is_zero c.rc_timeout) _ _ (λ _. tt)
        (λ _.
          if_cases (Ensures (AllKept s)) (after now c.rc_timeout) _ _
            (λ _.
              broadcast_resync-Kept s (broadcast_round_change s c)
                (broadcast_round_change-Kept s c k))
            (λ _. k))

  lock_proposed-Kept : (c : Consensus) (now : ℕ) → AllKept s c → AllKept s (lock_proposed s c now)
  unfolding lock_proposed broadcast_lock broadcast seal
  lock_proposed-Kept c now k =
      let r = current c in
      let c1 = set_round c c.current_round (record r {
        locked_state = r.max_proposed_state;
        locked_state_hash = s.state_hash r.max_proposed_state;
      }) in
      set_stage-Kept s (broadcast_lock s c1) Stage.commit
        (write-Kept s c.heap c.current_round _ k (k c.current_round))

  select_proposed-Kept :
      (c : Consensus) (now : ℕ) → AllKept s c → AllKept s (select_proposed s c now)
  unfolding select_proposed broadcast_select broadcast seal
  select_proposed-Kept c now k =
      let states = round_change_states (current c) in
      let c1 = propose_all s c states in
      lock_release-Kept s _ (
        set_stage-Kept s (broadcast_select s c1) Stage.lock_release (propose_all-Kept s c states k))

  on_leader-Kept :
      (c : Consensus) (leader now : ℕ) → AllKept s c → AllKept s (on_leader s c leader now)
  unfolding on_leader
  on_leader-Kept c leader now k =
      if_cases (AllKept s) (leader == s.identity) _ _
        (λ _.
          if_cases (AllKept s) (leb (quorum s) (current c).max_proposed_count) _ _
            (λ _. lock_proposed-Kept c now k)
            (λ _.
              if_cases (AllKept s)
                (num_round_changes (current c) == length s.participants || after now c.lock_timeout)
                _ _ (λ _. select_proposed-Kept c now k) (λ _. k)))
        (λ _.
          if_cases (AllKept s) (after now c.lock_timeout) _ _
            (λ _. set_stage-Kept s c Stage.commit k) (λ _. k))

  update_lock-Kept :
      (c : Consensus) (now : ℕ) → AllKept s c → Ensures (AllKept s) (update_lock s c now)
  unfolding update_lock
  update_lock-Kept c now k =
      if_cases (Ensures (AllKept s)) (is_zero c.lock_timeout) _ _ (λ _. tt)
        (λ _.
          >>=-Ensures (AllKept s) (round_leader s (current c).round_number) _
            (λ leader _. on_leader-Kept c leader now k))

  update_commit-Kept :
      (c : Consensus) (now : ℕ) → AllKept s c → Ensures (AllKept s) (update_commit s c now)
  unfolding update_commit
  update_commit-Kept c now k =
      if_cases (Ensures (AllKept s)) (is_zero c.commit_timeout) _ _ (λ _. tt)
        (λ _.
          if_cases (Ensures (AllKept s)) (after now c.commit_timeout) _ _
            (λ _. lock_release-Kept s _ (set_stage-Kept s c Stage.lock_release k)) (λ _. k))

  update_lock_release-Kept :
      (c : Consensus) (now : ℕ) → AllKept s c → Ensures (AllKept s) (update_lock_release s c now)
  unfolding update_lock_release
  update_lock_release-Kept c now k =
      let c1 = set_stage c Stage.round_changing in
      let c2 = switch_round c1 (u64 ((current c1).round_number + 1)) in
      if_cases (Ensures (AllKept s)) (is_zero c.lock_release_timeout) _ _ (λ _. tt)
        (λ _.
          if_cases (Ensures (AllKept s)) (after now c.lock_release_timeout) _ _
            (λ _.
              broadcast_round_change-Kept s c2
                (switch_round-Kept s c1 _ (set_stage-Kept s c Stage.round_changing k)))
            (λ _. k))

  tick-Kept : (c : Consensus) (now : ℕ) → AllKept s c → Ensures (AllKept s) (tick s c now)
  unfolding tick tick_in
  tick-Kept c now k = staged (current c).stage
    where
      staged : (st : Stage) → Ensures (AllKept s) (tick_in s st c now)
      staged Stage.round_changing = update_round_changing-Kept c now k
      staged Stage.lock = update_lock-Kept c now k
      staged Stage.commit = update_commit-Kept c now k
      staged Stage.lock_release = update_lock_release-Kept c now k

  settle-Kept :
      (c : Consensus) (o : Outcome Consensus) {d : Consensus}
      → settle s c o ≡ some d
      → AllKept s c
      → Ensures (AllKept s) o
      → AllKept s d
  settle-Kept c (ok c') e k h = subst (AllKept s) (some-injective _ _ e) h
  settle-Kept c (err x) e k h = subst (AllKept s) (some-injective _ _ e) k
  settle-Kept c panic e k h = absurd (cc e)

  drain_one-Kept :
      (c d : Consensus) (now : ℕ)
      → drain_one s c now ≡ some d
      → InOrder c
      → AllKept s c
      → AllKept s d
  unfolding drain_one
  drain_one-Kept c d now e i k = from c.loopback e
    where
      from : (queue : List Bytes) → drain_from s c now queue ≡ some d → AllKept s d
      from [] h = subst (AllKept s) (some-injective _ _ h) k
      from (bts ∷ rest) h =
          let c1 = record c { loopback = rest } in
          settle-Kept c1 (receive s c1 bts now) h k
            (receive-Kept s c1 bts now (InOrder-Frame c c1 (Frame-refl c) i) k)

  join-Kept : (c : Consensus) (p : Peer) → AllKept s c → AllKept s (join c p).0
  unfolding join
  join-Kept c p k =
      if_cases (λ (q : Consensus × Bool). AllKept s q.0)
        (any_of (λ (q : Peer). str_eq p.addr q.addr) c.peers) _ _ (λ _. k) (λ _. k)

  Step-Kept : {c d : Consensus} → Step s c d → InOrder c → AllKept s c → AllKept s d
  unfolding set_latency leave
  Step-Kept {c} {d} (receives bts now e) i k =
      Ensures-eq (AllKept s) _ (receive-Kept s c bts now i k) e
  Step-Kept {c} {d} (ticks now e) i k = Ensures-eq (AllKept s) _ (tick-Kept c now k) e
  Step-Kept {c} {d} (drains now e) i k = drain_one-Kept c d now e i k
  Step-Kept {c} {d} (proposes st e) i k = subst (AllKept s) (sym e) (propose-Kept s c st k)
  Step-Kept {c} {d} (joins p e) i k = subst (AllKept s) (sym e) (join-Kept c p k)
  Step-Kept {c} {d} (leaves addr e) i k = subst (AllKept s) (sym e) k
  Step-Kept {c} {d} (sets_latency l e) i k = subst (AllKept s) (sym e) k

  init-Kept : (config : Config) → AllKept s (init s config)
  unfolding init blank
  init-Kept config =
      let c0 = blank config.current_height in
      broadcast_round_change-Kept s (set_stage (switch_round c0 0) Stage.round_changing) (
        set_stage-Kept s (switch_round c0 0) Stage.round_changing
          (switch_round-Kept s c0 0 (λ p. new_round-Kept s 0)))

  -- Whatever messages, ticks and calls follow one another from `init` on: every <roundchange> and
  -- every <commit> message that a round holds is signed by a participant, decodes to what is
  -- recorded, is of that kind and of the round's number, and its recorded hash is that of its state;
  -- and in neither list of a round do two messages have the same key.
  pub Reach-Kept : (config : Config) {d : Consensus} → Reach s (init s config) d → AllKept s d
  Reach-Kept config here = init-Kept config
  Reach-Kept config (next r st) = Step-Kept st (Reach-InOrder s config r) (Reach-Kept config r)
