-- ===== src/Consensus/Frames.antt =====
-- The operations of consensus.go that do not deal with the list of rounds: sending, proposing,
-- locking, changing stage.
use bdls.Base.{
  ℕ, ◌≡◌, refl, List, [], ◌∷◌, Option, none, some, true, ltb, ◌==◌, not, ◌&&◌, any_of, Ensures,
  Ensures-eq, >>=-Ensures, if_cases, leb,
}
use bdls.Message.{State, Message, SignedProto, MessageType}
use bdls.Round.{
  Round, Stage, Tuple, rank, get_max_proposed, max_of_sorted, num_round_changes, sort_by_hash,
}
use bdls.Consensus.State.{Consensus, Setup, quorum, current, set_stage}
use bdls.Consensus.Rounds.{round_leader}
use bdls.Consensus.Timing.{time_add, commit_duration}
use bdls.Consensus.Proposals.{propose, propose_all}
use bdls.Consensus.Send.{
  broadcast, send_to, broadcast_round_change, broadcast_lock, broadcast_lock_release,
  broadcast_select, broadcast_decide, broadcast_resync, send_resync, send_round_change,
  deliver_commit, send_commit, proposal, is_changing, next_message, commit_message,
}
use bdls.Consensus.Locks.{highest_lock, release_locks, lock_release}
use bdls.Consensus.InOrder.{Frame, Frame-refl, SameCore-trans, set_round-Frame}
use bdls.Consensus.Handlers.{track_max, enter_selected, enter_locked}

pub set_stage-Frame : (c : Consensus) (st : Stage) → Frame c (set_stage c st)
set_stage-Frame c st = set_round-Frame c c.current_round (record (current c) { stage = st }) refl

module _ (s : Setup) where
  pub broadcast-Frame : (c : Consensus) (m : Message) → Frame c (broadcast s c m).0
  unfolding broadcast
  broadcast-Frame c m = Frame-refl c

  send_to-Frame : (c : Consensus) (m : Message) (leader : ℕ) → Frame c (send_to s c m leader)
  unfolding send_to
  send_to-Frame c m leader =
      if_cases (Frame c) (leader == s.identity) _ _ (λ _. Frame-refl c) (λ _. Frame-refl c)

  pub broadcast_round_change-Frame : (c : Consensus) → Frame c (broadcast_round_change s c)
  unfolding broadcast_round_change
  broadcast_round_change-Frame c =
      if_cases (Frame c) ((current c).round_change_sent && not (is_changing (current c).stage)) _ _
        (λ _. Frame-refl c) (λ _. sent (proposal s c))
    where
      sent : (st : State) → Frame c (send_round_change s c st)
      sent none = Frame-refl c
      sent (some b) =
          let m = record (next_message c MessageType.round_change) { state = some b } in
          let c1 = (broadcast s c m).0 in
          SameCore-trans (broadcast-Frame c m) (
            set_round-Frame c1 c1.current_round (record (current c1) { round_change_sent = true })
              refl)

  pub broadcast_resync-Frame : (c : Consensus) → Frame c (broadcast_resync s c)
  unfolding broadcast_resync
  broadcast_resync-Frame c = sent c.last_round_change_proof
    where
      sent : (proof : Option (List SignedProto)) → Frame c (send_resync s c proof)
      sent none = Frame-refl c
      sent (some proof) = broadcast-Frame c _

  broadcast_lock_release-Frame :
      (c : Consensus) (signed : SignedProto) → Frame c (broadcast_lock_release s c signed)
  unfolding broadcast_lock_release
  broadcast_lock_release-Frame c signed =
      broadcast-Frame c
        (record (next_message c MessageType.lock_release) { lock_release = some signed })

  pub broadcast_lock-Frame : (c : Consensus) → Frame c (broadcast_lock s c)
  unfolding broadcast_lock
  broadcast_lock-Frame c = broadcast-Frame c _

  pub broadcast_select-Frame : (c : Consensus) → Frame c (broadcast_select s c)
  unfolding broadcast_select
  broadcast_select-Frame c = broadcast-Frame c _

  pub broadcast_decide-Frame : (c : Consensus) → Frame c (broadcast_decide s c).0
  unfolding broadcast_decide
  broadcast_decide-Frame c = broadcast-Frame c _

  pub lock_release-Frame : (c : Consensus) → Frame c (lock_release s c)
  unfolding lock_release
  lock_release-Frame c = released c.locks
    where
      released : (locks : List Tuple) → Frame c (release_locks s c locks)
      released [] = Frame-refl c
      released (t ∷ ts) =
          broadcast_lock_release-Frame (record c { locks = highest_lock t ts ∷ [] })
            (highest_lock t ts).signed

  pub propose-Frame : (c : Consensus) (st : State) → Frame c (propose s c st)
  unfolding propose
  propose-Frame c none = Frame-refl c
  propose-Frame c (some b) =
      if_cases (Frame c) (any_of (λ u. s.state_hash u == s.state_hash (some b)) c.unconfirmed) _ _
        (λ _. Frame-refl c) (λ _. Frame-refl c)

  pub propose_all-Frame : (c : Consensus) (sts : List State) → Frame c (propose_all s c sts)
  unfolding propose_all
  propose_all-Frame c [] = Frame-refl c
  propose_all-Frame c (st ∷ sts) =
      SameCore-trans (propose-Frame c st) (propose_all-Frame (propose s c st) sts)

  deliver_commit-Frame : (c : Consensus) (m : Message) → Ensures (Frame c) (deliver_commit s c m)
  unfolding deliver_commit
  deliver_commit-Frame c m =
      if_cases (Ensures (Frame c)) s.enable_commit_unicast _ _
        (λ _.
          >>=-Ensures (Frame c) (round_leader s m.round) _ (λ leader _. send_to-Frame c m leader))
        (λ _. broadcast-Frame c m)

  pub send_commit-Frame : (c : Consensus) (m : Message) → Ensures (Frame c) (send_commit s c m)
  unfolding send_commit
  send_commit-Frame c m =
      if_cases (Ensures (Frame c)) (current c).commit_sent _ _ (λ _. Frame-refl c)
        (λ _. >>=-Ensures (Frame c) (deliver_commit s c (commit_message s m)) _ (λ c1 e.
          SameCore-trans (Ensures-eq (Frame c) _ (deliver_commit-Frame c _) e) (
            set_round-Frame c1 c1.current_round (record (current c1) { commit_sent = true }) refl)))

  max_of_sorted-number :
      (r : Round) (ts : List Tuple) → (max_of_sorted r ts).0.round_number ≡ r.round_number
  unfolding max_of_sorted
  max_of_sorted-number r [] = refl
  max_of_sorted-number r (t ∷ ts) = refl

  pub track_max-Frame : (c : Consensus) (p round : ℕ) → Ensures (Frame c) (track_max s c p round)
  unfolding track_max get_max_proposed
  track_max-Frame c p round =
      if_cases (Ensures (Frame c))
        (p == c.current_round && leb (quorum s) (num_round_changes (c.heap p))) _ _
        (λ _. >>=-Ensures (Frame c) (round_leader s round) _ (λ leader _.
          if_cases (Frame c) (leader == s.identity) _ _
            (λ _.
              set_round-Frame c p _
                (max_of_sorted-number (c.heap p) (sort_by_hash (c.heap p).round_changes)))
            (λ _. Frame-refl c)))
        (λ _. Frame-refl c)

  pub enter_selected-Frame :
      (c : Consensus) (m : Message) (now : ℕ) → Frame c (enter_selected s c m now)
  unfolding enter_selected
  enter_selected-Frame c m now =
      let c2 = set_stage c Stage.lock_release in
      let c3 = record c2 {
        lock_release_timeout = time_add now (commit_duration c2.latency m.round);
      } in
      if_cases (Frame c) (ltb (rank (current c).stage) (rank Stage.lock_release)) _ _
        (λ _.
          SameCore-trans (set_stage-Frame c Stage.lock_release)
            (SameCore-trans (lock_release-Frame c3) (propose-Frame (lock_release s c3) m.state)))
        (λ _. Frame-refl c)

  pub enter_locked-Frame :
      (c : Consensus) (m : Message) (signed : SignedProto) (now : ℕ)
      → Frame c (enter_locked s c m signed now)
  unfolding enter_locked
  enter_locked-Frame c m signed now =
      if_cases (Frame c) (ltb (rank (current c).stage) (rank Stage.commit)) _ _
        (λ _. set_stage-Frame c Stage.commit) (λ _. Frame-refl c)
