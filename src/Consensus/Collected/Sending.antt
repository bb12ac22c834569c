-- ===== src/Consensus/Collected/Sending.antt =====
-- The operations of consensus.go that leave the commits and the locked states of all rounds alone.
use bdls.Base.{
  ℕ, ◌≡◌, ◌∙◌, refl, List, [], ◌∷◌, Option, none, some, true, ltb, leb, ◌==◌, not, ◌&&◌, any_of,
  Ensures, Ensures-eq, >>=-Ensures, if_cases,
}
use bdls.Message.{State, Message, SignedProto}
use bdls.Round.{
  Round, Stage, Tuple, rank, num_round_changes, get_max_proposed, max_of_sorted, sort_by_hash,
}
use bdls.Consensus.State.{Consensus, Setup, quorum, current, set_stage}
use bdls.Consensus.Rounds.{round_leader}
use bdls.Consensus.Timing.{time_add, commit_duration}
use bdls.Consensus.Proposals.{propose, propose_all}
use bdls.Consensus.Send.{
  broadcast, send_to, broadcast_round_change, broadcast_lock_release, broadcast_resync, send_resync,
  send_round_change, deliver_commit, send_commit, proposal, is_changing, commit_message,
}
use bdls.Consensus.Locks.{release_locks, lock_release}
use bdls.Consensus.Handlers.{track_max, enter_selected, enter_locked}
use bdls.Consensus.Collected.{view, SameViews, SameViews-write}

abbrev pub Untouched : Consensus → Consensus → Type 0
Untouched c d = SameViews c.heap d.heap

pub set_stage-Untouched : (c : Consensus) (st : Stage) → Untouched c (set_stage c st)
set_stage-Untouched c st =
    SameViews-write c.heap c.current_round (record (current c) { stage = st }) refl

module _ (s : Setup) where
  send_to-Untouched :
      (c : Consensus) (m : Message) (leader : ℕ) → Untouched c (send_to s c m leader)
  unfolding send_to
  send_to-Untouched c m leader =
      if_cases (Untouched c) (leader == s.identity) _ _ (λ _ p. refl) (λ _ p. refl)

  pub round_change-Untouched : (c : Consensus) → Untouched c (broadcast_round_change s c)
  unfolding broadcast_round_change broadcast
  round_change-Untouched c =
      if_cases (Untouched c) ((current c).round_change_sent && not (is_changing (current c).stage))
        _ _ (λ _ p. refl) (λ _. sent (proposal s c))
    where
      sent : (st : State) → Untouched c (send_round_change s c st)
      sent none = λ p. refl
      sent (some b) =
          SameViews-write c.heap c.current_round (record (current c) { round_change_sent = true })
            refl

  pub resync-Untouched : (c : Consensus) → Untouched c (broadcast_resync s c)
  unfolding broadcast_resync broadcast
  resync-Untouched c = sent c.last_round_change_proof
    where
      sent : (proof : Option (List SignedProto)) → Untouched c (send_resync s c proof)
      sent none = λ p. refl
      sent (some proof) = λ p. refl

  pub lock_release-Untouched : (c : Consensus) → Untouched c (lock_release s c)
  unfolding lock_release broadcast_lock_release broadcast
  lock_release-Untouched c = released c.locks
    where
      released : (locks : List Tuple) → Untouched c (release_locks s c locks)
      released [] = λ p. refl
      released (t ∷ ts) = λ p. refl

  pub propose-Untouched : (c : Consensus) (st : State) → Untouched c (propose s c st)
  unfolding propose
  propose-Untouched c none = λ p. refl
  propose-Untouched c (some b) =
      if_cases (Untouched c) (any_of (λ u. s.state_hash u == s.state_hash (some b)) c.unconfirmed) _
        _ (λ _ p. refl) (λ _ p. refl)

  pub propose_all-Untouched : (c : Consensus) (sts : List State) → Untouched c (propose_all s c sts)
  unfolding propose_all
  propose_all-Untouched c [] = λ p. refl
  propose_all-Untouched c (st ∷ sts) =
      λ p. propose_all-Untouched (propose s c st) sts p ∙ propose-Untouched c st p

  deliver_commit-Untouched :
      (c : Consensus) (m : Message) → Ensures (Untouched c) (deliver_commit s c m)
  unfolding deliver_commit broadcast
  deliver_commit-Untouched c m =
      if_cases (Ensures (Untouched c)) s.enable_commit_unicast _ _
        (λ _.
          >>=-Ensures (Untouched c) (round_leader s m.round) _
            (λ leader _. send_to-Untouched c m leader))
        (λ _ p. refl)

  pub send_commit-Untouched :
      (c : Consensus) (m : Message) → Ensures (Untouched c) (send_commit s c m)
  unfolding send_commit
  send_commit-Untouched c m =
      if_cases (Ensures (Untouched c)) (current c).commit_sent _ _ (λ _ p. refl)
        (λ _. >>=-Ensures (Untouched c) (deliver_commit s c (commit_message s m)) _ (λ c1 e. λ p.
          SameViews-write c1.heap c1.current_round (record (current c1) { commit_sent = true }) refl
            p
          ∙ Ensures-eq (Untouched c) _ (deliver_commit-Untouched c _) e p))

  max_of_sorted-view : (r : Round) (ts : List Tuple) → view (max_of_sorted r ts).0 ≡ view r
  unfolding max_of_sorted
  max_of_sorted-view r [] = refl
  max_of_sorted-view r (t ∷ ts) = refl

  pub track_max-Untouched :
      (c : Consensus) (p round : ℕ) → Ensures (Untouched c) (track_max s c p round)
  unfolding track_max get_max_proposed
  track_max-Untouched c p round =
      if_cases (Ensures (Untouched c))
        (p == c.current_round && leb (quorum s) (num_round_changes (c.heap p))) _ _
        (λ _. >>=-Ensures (Untouched c) (round_leader s round) _ (λ leader _.
          if_cases (Untouched c) (leader == s.identity) _ _
            (λ _.
              SameViews-write c.heap p _
                (max_of_sorted-view (c.heap p) (sort_by_hash (c.heap p).round_changes)))
            (λ _ q. refl)))
        (λ _ q. refl)

  pub enter_selected-Untouched :
      (c : Consensus) (m : Message) (now : ℕ) → Untouched c (enter_selected s c m now)
  unfolding enter_selected
  enter_selected-Untouched c m now =
      let c2 = set_stage c Stage.lock_release in
      let c3 = record c2 {
        lock_release_timeout = time_add now (commit_duration c2.latency m.round);
      } in
      if_cases (Untouched c) (ltb (rank (current c).stage) (rank Stage.lock_release)) _ _
        (λ _. λ p.
          propose-Untouched (lock_release s c3) m.state p
          ∙ lock_release-Untouched c3 p
          ∙ set_stage-Untouched c Stage.lock_release p)
        (λ _ p. refl)

  pub enter_locked-Untouched :
      (c : Consensus) (m : Message) (signed : SignedProto) (now : ℕ)
      → Untouched c (enter_locked s c m signed now)
  unfolding enter_locked
  enter_locked-Untouched c m signed now =
      if_cases (Untouched c) (ltb (rank (current c).stage) (rank Stage.commit)) _ _
        (λ _. set_stage-Untouched c Stage.commit) (λ _ p. refl)
