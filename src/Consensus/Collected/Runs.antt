-- ===== src/Consensus/Collected/Runs.antt =====
-- The runs of consensus.go, and the commits and locked states in the rounds.
use mathlib.Core.Option.{some-injective}
use bdls.Base.{
  ℕ, ◌+◌, ◌≡◌, refl, sym, subst, List, [], ◌∷◌, some, Bool, ◌||◌, ◌==◌, leb, if_cases, any_of,
  length, inl, Outcome, ok, err, panic, Ensures, Ensures-eq, >>=-Ensures, u64,
}
use bdls.Message.{Bytes}
use bdls.Round.{Stage, num_round_changes, round_change_states}
use bdls.Consensus.State.{Consensus, Setup, current, quorum, set_round, set_stage}
use bdls.Consensus.Timing.{after, is_zero}
use bdls.Consensus.Rounds.{switch_round, round_leader}
use bdls.Consensus.Proposals.{propose, propose_all}
use bdls.Consensus.Send.{
  broadcast, broadcast_round_change, broadcast_lock, broadcast_select, broadcast_resync,
}
use bdls.Consensus.Receive.{receive, settle, drain_from, drain_one}
use bdls.Consensus.Update.{
  update_round_changing, lock_proposed, select_proposed, on_leader, update_lock, update_commit,
  update_lock_release, tick_in, tick,
}
use bdls.Consensus.Frames.{broadcast_resync-Frame, propose-Frame, propose_all-Frame}
use bdls.Consensus.Collected.{
  view, Sound, Collected, Collected-still, Collected-write, new_round-Sound,
}
use bdls.Consensus.Collected.Sending.{resync-Untouched, propose-Untouched, propose_all-Untouched}
use bdls.Consensus.Collected.Searching.{switch_round-Collected}
use bdls.Consensus.Collected.Handling.{staged, announced, released}
use bdls.Consensus.Collected.Handling.Committing.{receive-Collected}
use bdls.Consensus.Peers.{join, leave, set_latency}
use bdls.Consensus.Config.{Config, init, blank}
use bdls.Consensus.State.{Peer}
use text.Mathlib.Text.{◌==◌ as str_eq}
use bdls.Consensus.Reachable.{
  Step, receives, ticks, drains, proposes, joins, leaves, sets_latency, Reach, here, next,
}

module _ (s : Setup) where
  update_round_changing-Collected :
      (c : Consensus) (now : ℕ)
      → Collected s c
      → Ensures (Collected s) (update_round_changing s c now)
  unfolding update_round_changing
  update_round_changing-Collected c now k =
      let c1 = broadcast_round_change s c in
      if_cases (Ensures (Collected s)) (is_zero c.rc_timeout) panic _ (λ _. tt)
        (λ _.
          if_cases (Ensures (Collected s)) (after now c.rc_timeout) _ (ok c)
            (λ _.
              Collected-still s c1 (broadcast_resync s c1) (broadcast_resync-Frame s c1)
                (resync-Untouched s c1) (announced s c k))
            (λ _. k))

  lock_proposed-Collected :
      (c : Consensus) (now : ℕ) → Collected s c → Collected s (lock_proposed s c now)
  unfolding lock_proposed broadcast_lock broadcast
  lock_proposed-Collected c now k =
      let r = current c in
      let r' = record r {
        locked_state = r.max_proposed_state;
        locked_state_hash = s.state_hash r.max_proposed_state;
      } in
      let new : Sound s (u64 (c.latest_height + 1)) (view r') = record {
        of_height = k.0.of_height;
        valid = k.0.valid;
        read = k.0.read;
        hashed = inl refl;
      } in
      let c1 = set_round c c.current_round r' in
      staged s (broadcast_lock s c1) Stage.commit (Collected-write s c c.current_round r' new k)

  select_proposed-Collected :
      (c : Consensus) (now : ℕ) → Collected s c → Collected s (select_proposed s c now)
  unfolding select_proposed broadcast_select broadcast
  select_proposed-Collected c now k =
      let states = round_change_states (current c) in
      let c1 = propose_all s c states in
      let k1 =
        Collected-still s c c1 (propose_all-Frame s c states) (propose_all-Untouched s c states)
          k in
      released s _ (staged s (broadcast_select s c1) Stage.lock_release k1)

  on_leader-Collected :
      (c : Consensus) (leader now : ℕ) → Collected s c → Collected s (on_leader s c leader now)
  unfolding on_leader
  on_leader-Collected c leader now k =
      if_cases (Collected s) (leader == s.identity) _ _
        (λ _.
          if_cases (Collected s) (leb (quorum s) (current c).max_proposed_count)
            (lock_proposed s c now) _ (λ _. lock_proposed-Collected c now k)
            (λ _.
              if_cases (Collected s)
                (num_round_changes (current c) == length s.participants || after now c.lock_timeout)
                (select_proposed s c now) c (λ _. select_proposed-Collected c now k) (λ _. k)))
        (λ _.
          if_cases (Collected s) (after now c.lock_timeout) _ c (λ _. staged s c Stage.commit k)
            (λ _. k))

  update_lock-Collected :
      (c : Consensus) (now : ℕ) → Collected s c → Ensures (Collected s) (update_lock s c now)
  unfolding update_lock
  update_lock-Collected c now k =
      if_cases (Ensures (Collected s)) (is_zero c.lock_timeout) panic _ (λ _. tt)
        (λ _.
          >>=-Ensures (Collected s) (round_leader s (current c).round_number) _
            (λ leader _. on_leader-Collected c leader now k))

  update_commit-Collected :
      (c : Consensus) (now : ℕ) → Collected s c → Ensures (Collected s) (update_commit s c now)
  unfolding update_commit
  update_commit-Collected c now k =
      if_cases (Ensures (Collected s)) (is_zero c.commit_timeout) panic _ (λ _. tt)
        (λ _.
          if_cases (Ensures (Collected s)) (after now c.commit_timeout) _ (ok c)
            (λ _. released s _ (staged s c Stage.lock_release k)) (λ _. k))

  update_lock_release-Collected :
      (c : Consensus) (now : ℕ)
      → Collected s c
      → Ensures (Collected s) (update_lock_release s c now)
  unfolding update_lock_release
  update_lock_release-Collected c now k =
      let c1 = set_stage c Stage.round_changing in
      let c2 = switch_round c1 (u64 ((current c1).round_number + 1)) in
      if_cases (Ensures (Collected s)) (is_zero c.lock_release_timeout) panic _ (λ _. tt)
        (λ _.
          if_cases (Ensures (Collected s)) (after now c.lock_release_timeout) _ (ok c)
            (λ _.
              announced s c2 (switch_round-Collected s c1 _ (staged s c Stage.round_changing k)))
            (λ _. k))

  tick_in-Collected :
      (st : Stage) (c : Consensus) (now : ℕ)
      → Collected s c
      → Ensures (Collected s) (tick_in s st c now)
  unfolding tick_in
  tick_in-Collected Stage.round_changing c now k = update_round_changing-Collected c now k
  tick_in-Collected Stage.lock c now k = update_lock-Collected c now k
  tick_in-Collected Stage.commit c now k = update_commit-Collected c now k
  tick_in-Collected Stage.lock_release c now k = update_lock_release-Collected c now k

  settle-Collected :
      (c : Consensus) (o : Outcome Consensus) {d : Consensus}
      → settle s c o ≡ some d
      → Collected s c
      → Ensures (Collected s) o
      → Collected s d
  settle-Collected c (ok c') e k h = subst (Collected s) (some-injective _ _ e) h
  settle-Collected c (err x) e k h = subst (Collected s) (some-injective _ _ e) k
  settle-Collected c panic e k h = absurd (cc e)

  drain_one-Collected :
      (c d : Consensus) (now : ℕ) → drain_one s c now ≡ some d → Collected s c → Collected s d
  unfolding drain_one
  drain_one-Collected c d now e k = from c.loopback e
    where
      from : (queue : List Bytes) → drain_from s c now queue ≡ some d → Collected s d
      from [] h = subst (Collected s) (some-injective _ _ h) k
      from (bts ∷ rest) h =
          let c1 = record c { loopback = rest } in
          settle-Collected c1 (receive s c1 bts now) h k (receive-Collected s c1 bts now k)

  join-Collected : (c : Consensus) (p : Peer) → Collected s c → Collected s (join c p).0
  unfolding join
  join-Collected c p k =
      if_cases (λ (q : Consensus × Bool). Collected s q.0)
        (any_of (λ (q : Peer). str_eq p.addr q.addr) c.peers) _ _ (λ _. k) (λ _. k)

  Step-Collected : {c d : Consensus} → Step s c d → Collected s c → Collected s d
  unfolding set_latency leave tick
  Step-Collected {c} {d} (receives bts now e) k =
      Ensures-eq (Collected s) _ (receive-Collected s c bts now k) e
  Step-Collected {c} {d} (ticks now e) k =
      Ensures-eq (Collected s) _ (tick_in-Collected (current c).stage c now k) e
  Step-Collected {c} {d} (drains now e) k = drain_one-Collected c d now e k
  Step-Collected {c} {d} (proposes st e) k =
      subst (Collected s) (sym e)
        (Collected-still s c (propose s c st) (propose-Frame s c st) (propose-Untouched s c st) k)
  Step-Collected {c} {d} (joins p e) k = subst (Collected s) (sym e) (join-Collected c p k)
  Step-Collected {c} {d} (leaves addr e) k = subst (Collected s) (sym e) k
  Step-Collected {c} {d} (sets_latency l e) k = subst (Collected s) (sym e) k

  init-Collected : (config : Config) → Collected s (init s config)
  unfolding init blank
  init-Collected config =
      let c0 = blank config.current_height in
      announced s (set_stage (switch_round c0 0) Stage.round_changing) (
        staged s (switch_round c0 0) Stage.round_changing
          (switch_round-Collected s c0 0 (new_round-Sound s _ 0, tt)))

  -- Over every run from `init` on.
  pub Reach-Collected :
      (config : Config) {d : Consensus} → Reach s (init s config) d → Collected s d
  Reach-Collected config here = init-Collected config
  Reach-Collected config (next r st) = Step-Collected st (Reach-Collected config r)
