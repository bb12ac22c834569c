-- ===== src/Consensus/Collected/Handling.antt =====
-- The cases of receiveMessage in consensus.go, and the commits and locked states in the rounds.
pub mod Committing
use bdls.Base.{
  ℕ, ◌+◌, ◌≡◌, refl, sym, subst, Option, none, some, is_some, Bool, true, false, ◌&&◌, ◌==◌, ==→eq,
  ltb, leb, if_cases, if◌then◌else◌, any_of, All, All-append, Outcome, ok, err, panic, require,
  require-eq-ok, >>-eq-ok, Ensures, Ensures-eq, >>=-Ensures, u64,
}
use bdls.Errors.{Error}
use bdls.Message.{Bytes, State, Message, MessageType, SignedProto, protocol_version}
use bdls.Round.{
  Round, Stage, Tuple, rank, same_signer, add_round_change, add_commit, num_round_changes,
  num_committed, signed_round_changes,
}
use bdls.Consensus.State.{Consensus, Setup, current, quorum, set_round, set_stage}
use bdls.Consensus.Rounds.{get_round, switch_round, round_leader, height_sync}
use bdls.Consensus.Checks.{decoded, verify_message, in_commit}
use bdls.Consensus.Verify.{
  verify_round_change, verify_lock, verify_lock_release, verify_select, verify_commit,
  verify_decide,
}
use bdls.Consensus.Send.{propagate, broadcast_round_change, send_commit}
use bdls.Consensus.Locks.{lock_release}
use bdls.Consensus.Handlers.{
  scan_rounds, enter_lock, track_max, accept_round_change, on_round_change, follow_round,
  enter_selected, on_select, enter_locked, on_lock, release_lock, on_lock_release, decide,
  add_committed, on_commit, on_decide, on_resync,
}
use bdls.Consensus.Receive.{accepts, dispatch, receive}
use bdls.Consensus.Frames.{
  broadcast_round_change-Frame, lock_release-Frame, send_commit-Frame, track_max-Frame,
  enter_selected-Frame, enter_locked-Frame,
}
use bdls.Consensus.Collected.{
  view, SameViews-write, Sound, SoundAt, Collected, Collected-still, Collected-views,
  Collected-write,
}
use bdls.Consensus.InOrder.{Frame}
use bdls.Consensus.Collected.Sending.{
  Untouched, set_stage-Untouched, round_change-Untouched, lock_release-Untouched,
  send_commit-Untouched, track_max-Untouched, enter_selected-Untouched, enter_locked-Untouched,
}
use bdls.Consensus.Collected.Searching.{
  get_round-Collected, switch_round-Collected, height_sync-Collected, Left, scan_rounds-Left,
}

add_round_change-view :
    (hash : State → ℕ) (r : Round) (sp : SignedProto) (m : Message)
    → view (add_round_change hash r sp m).0 ≡ view r
unfolding add_round_change
add_round_change-view hash r sp m =
    if_cases (λ (q : Round × Bool). view q.0 ≡ view r)
      (any_of (same_signer sp.x sp.y) r.round_changes) _ _ (λ _. refl) (λ _. refl)

module _ (s : Setup) where
  pub staged : (c : Consensus) (st : Stage) → Collected s c → Collected s (set_stage c st)
  staged c st k = Collected-views s c (set_stage c st).heap (set_stage-Untouched c st) k

  pub announced : (c : Consensus) → Collected s c → Collected s (broadcast_round_change s c)
  announced c k =
      Collected-still s c (broadcast_round_change s c) (broadcast_round_change-Frame s c)
        (round_change-Untouched s c) k

  pub released : (c : Consensus) → Collected s c → Collected s (lock_release s c)
  released c k =
      Collected-still s c (lock_release s c) (lock_release-Frame s c) (lock_release-Untouched s c) k

  enter_lock-Collected :
      (c : Consensus) (round now : ℕ)
      → Collected s c
      → Ensures (Collected s) (enter_lock s c round now)
  unfolding enter_lock
  enter_lock-Collected c round now k =
      let c1 = switch_round c round in
      let c2 = record c1 { last_round_change_proof = some (signed_round_changes (current c1)) } in
      >>=-Ensures (Collected s) (round_leader s round) _ λ leader _.
        staged (broadcast_round_change s c2) Stage.lock
          (announced c2 (switch_round-Collected s c round k))

  -- A call that leaves the list of rounds and the views alone.
  both :
      (c : Consensus) (o : Outcome Consensus)
      → Ensures (Frame c) o
      → Ensures (Untouched c) o
      → Collected s c
      → Ensures (Collected s) o
  both c (ok d) f u k = Collected-still s c d f u k
  both c (err x) f u k = tt
  both c panic f u k = tt

  tracked :
      (c : Consensus) (p round : ℕ) → Collected s c → Ensures (Collected s) (track_max s c p round)
  tracked c p round k =
      both c (track_max s c p round) (track_max-Frame s c p round) (track_max-Untouched s c p round)
        k

  accept_round_change-Collected :
      (c : Consensus) (m : Message) (signed : SignedProto) (now : ℕ)
      → Collected s c
      → Ensures (Collected s) (accept_round_change s c m signed now)
  unfolding accept_round_change
  accept_round_change-Collected c m signed now (here_now, listed) =
      let (c1, p) = get_round c m.round false in
      let (r, added) = add_round_change s.state_hash (c1.heap p) signed m in
      let c2 = set_round c1 p r in
      let (left, hit, old, same, cur) = get_round-Collected s c m.round false listed in
      let k1 : Collected s c1 = (
        subst (λ (h : ℕ). SoundAt s (u64 (h + 1)) c1.heap c1.current_round) (sym same)
            (subst (SoundAt s (u64 (c.latest_height + 1)) c1.heap) (sym cur)
              (old c.current_round here_now)),
        subst (λ (h : ℕ). All (SoundAt s (u64 (h + 1)) c1.heap) c1.rounds) (sym same) left,
      ) in
      let k2 : Collected s c2 =
        Collected-views s c1 c2.heap
          (SameViews-write c1.heap p r (add_round_change-view s.state_hash (c1.heap p) signed m))
          k1 in
      let full = num_round_changes r == quorum s && ltb (rank r.stage) (rank Stage.lock) in
      let k3 =
        if_cases (Ensures (Collected s)) full (enter_lock s c2 m.round now) (ok c2)
          (λ _. enter_lock-Collected c2 m.round now k2) (λ _. k2) in
      if_cases (Ensures (Collected s)) added _ _
        (λ _.
          >>=-Ensures (Collected s) (if full then enter_lock s c2 m.round now else ok c2) _
            (λ c3 e. tracked c3 p m.round (Ensures-eq (Collected s) _ k3 e)))
        (λ _. k1)

  pub on_round_change-Collected :
      (c : Consensus) (m : Message) (signed : SignedProto) (now : ℕ)
      → Collected s c
      → Ensures (Collected s) (on_round_change s c m signed now)
  unfolding on_round_change
  on_round_change-Collected c m signed now k =
      let cur = (current c).round_number in
      let good = SoundAt s (u64 (c.latest_height + 1)) c.heap in
      >>=-Ensures (Collected s) (verify_round_change s c m) _ λ _ _.
        >>=-Ensures (Collected s) (scan_rounds cur m.round signed.x signed.y c.heap c.rounds) _
          λ scan e.
            let left =
              Ensures-eq (Left good c.heap) _
                (scan_rounds-Left good cur m.round signed.x signed.y c.heap c.rounds k.1) e in
            let c1 = record c { rounds = scan.refs; heap = scan.heap } in
            let k1 : Collected s c1 =
              Collected-views s (record c { rounds = scan.refs }) scan.heap left.same_views
                (k.0, left.listed) in
            if_cases (Ensures (Collected s)) scan.stop (ok c1)
              (accept_round_change s c1 m signed now) (λ _. k1)
              (λ _. accept_round_change-Collected c1 m signed now k1)

  followed :
      (c : Consensus) (round : ℕ) (signed : SignedProto)
      → Collected s c
      → Collected s (follow_round s c round signed)
  unfolding follow_round
  followed c round signed k =
      if_cases (Collected s) (ltb (current c).round_number round) _ c
        (λ _. switch_round-Collected s c round k) (λ _. k)

  pub on_lock-Collected :
      (c : Consensus) (m : Message) (signed : SignedProto) (now : ℕ)
      → Collected s c
      → Ensures (Collected s) (on_lock s c m signed now)
  unfolding on_lock
  on_lock-Collected c m signed now k = >>=-Ensures (Collected s) (verify_lock s c m signed) _ λ _ _.
      let c1 = follow_round s c m.round signed in
      let c2 = enter_locked s c1 m signed now in
      let k2 =
        Collected-still s c1 c2 (enter_locked-Frame s c1 m signed now)
          (enter_locked-Untouched s c1 m signed now) (followed c m.round signed k) in
      both c2 (send_commit s c2 m) (send_commit-Frame s c2 m) (send_commit-Untouched s c2 m) k2

  pub on_select-Collected :
      (c : Consensus) (m : Message) (signed : SignedProto) (now : ℕ)
      → Collected s c
      → Ensures (Collected s) (on_select s c m signed now)
  unfolding on_select
  on_select-Collected c m signed now k =
      >>=-Ensures (Collected s) (verify_select s c m signed) _ λ _ _.
        let c1 = follow_round s c m.round signed in
        Collected-still s c1 (enter_selected s c1 m now) (enter_selected-Frame s c1 m now)
          (enter_selected-Untouched s c1 m now) (followed c m.round signed k)

  pub release_lock-Collected :
      (c : Consensus) (o : Option SignedProto)
      → Collected s c
      → Ensures (Collected s) (release_lock s c o)
  unfolding release_lock
  release_lock-Collected c none k =
      >>=-Ensures (Collected s) (verify_lock_release s c none) _ (λ _ _. k)
  release_lock-Collected c (some signed) k =
      >>=-Ensures (Collected s) (verify_lock_release s c (some signed)) _ (λ _ _. k)
  -- A height that starts is sound, whatever was before.
