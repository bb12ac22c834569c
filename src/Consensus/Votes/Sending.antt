-- ===== src/Consensus/Votes/Sending.antt =====
-- Sending, switching rounds and proposing, of consensus.go, and the messages in the rounds.
use bdls.Base.{
  ℕ, List, [], ◌∷◌, Option, none, some, Bool, true, not, ◌&&◌, ◌==◌, leb, ltb, if_cases, any_of,
  Ensures, Ensures-eq, >>=-Ensures,
}
use bdls.Message.{State, Message, SignedProto}
use bdls.Round.{Stage, Tuple, rank, num_round_changes}
use bdls.Consensus.State.{Consensus, Setup, current, quorum, set_stage}
use bdls.Consensus.Rounds.{get_round, search_round, switch_round, height_sync, round_leader}
use bdls.Consensus.Proposals.{propose, propose_all}
use bdls.Consensus.Send.{
  seal, broadcast, send_to, proposal, send_round_change, is_changing, broadcast_round_change,
  broadcast_lock_release, send_resync, broadcast_resync, deliver_commit, commit_message,
  send_commit,
}
use bdls.Consensus.Locks.{lock_release, release_locks}
use bdls.Consensus.Handlers.{follow_round, enter_selected, enter_locked, track_max}
use bdls.Consensus.Votes.{AllKept, write-Kept, new_round-Kept, get_max_proposed-Kept}

module _ (s : Setup) where
  pub set_stage-Kept : (c : Consensus) (st : Stage) → AllKept s c → AllKept s (set_stage c st)
  set_stage-Kept c st k = write-Kept s c.heap c.current_round _ k (k c.current_round)

  pub get_round-Kept :
      (c : Consensus) (idx : ℕ) (purge : Bool) → AllKept s c → AllKept s (get_round c idx purge).0
  unfolding get_round
  get_round-Kept c idx purge k =
      if_cases (AllKept s) (search_round c.heap c.next_ref idx purge c.rounds).is_new _ _
        (λ _. write-Kept s c.heap c.next_ref _ k (new_round-Kept s idx)) (λ _. k)

  pub switch_round-Kept :
      (c : Consensus) (round : ℕ) → AllKept s c → AllKept s (switch_round c round)
  unfolding switch_round
  switch_round-Kept c round k = get_round-Kept c round true k

  pub height_sync-Kept :
      (c : Consensus) (height round : ℕ) (st : State)
      → AllKept s c
      → AllKept s (height_sync c height round st)
  unfolding height_sync
  height_sync-Kept c height round st k =
      set_stage-Kept (switch_round _ 0) Stage.round_changing (switch_round-Kept _ 0 k)

  pub broadcast_round_change-Kept :
      (c : Consensus) → AllKept s c → AllKept s (broadcast_round_change s c)
  unfolding broadcast_round_change broadcast seal
  broadcast_round_change-Kept c k =
      if_cases (AllKept s) ((current c).round_change_sent && not (is_changing (current c).stage)) _
        _ (λ _. k) (λ _. sent (proposal s c))
    where
      sent : (st : State) → AllKept s (send_round_change s c st)
      sent none = k
      sent (some b) = write-Kept s c.heap c.current_round _ k (k c.current_round)

  pub broadcast_resync-Kept : (c : Consensus) → AllKept s c → AllKept s (broadcast_resync s c)
  unfolding broadcast_resync broadcast seal
  broadcast_resync-Kept c k = sent c.last_round_change_proof
    where
      sent : (proof : Option (List SignedProto)) → AllKept s (send_resync s c proof)
      sent none = k
      sent (some proof) = k

  pub lock_release-Kept : (c : Consensus) → AllKept s c → AllKept s (lock_release s c)
  unfolding lock_release broadcast_lock_release broadcast seal
  lock_release-Kept c k = released c.locks
    where
      released : (locks : List Tuple) → AllKept s (release_locks s c locks)
      released [] = k
      released (t ∷ ts) = k

  pub propose-Kept : (c : Consensus) (st : State) → AllKept s c → AllKept s (propose s c st)
  unfolding propose
  propose-Kept c none k = k
  propose-Kept c (some b) k =
      if_cases (AllKept s) (any_of (λ u. s.state_hash u == s.state_hash (some b)) c.unconfirmed) _ _
        (λ _. k) (λ _. k)

  pub propose_all-Kept :
      (c : Consensus) (sts : List State) → AllKept s c → AllKept s (propose_all s c sts)
  unfolding propose_all
  propose_all-Kept c [] k = k
  propose_all-Kept c (st ∷ sts) k = propose_all-Kept (propose s c st) sts (propose-Kept c st k)

  deliver_commit-Kept :
      (c : Consensus) (m : Message) → AllKept s c → Ensures (AllKept s) (deliver_commit s c m)
  unfolding deliver_commit send_to broadcast seal
  deliver_commit-Kept c m k =
      if_cases (Ensures (AllKept s)) s.enable_commit_unicast _ _
        (λ _.
          >>=-Ensures (AllKept s) (round_leader s m.round) _
            (λ leader _. if_cases (AllKept s) (leader == s.identity) _ _ (λ _. k) (λ _. k)))
        (λ _. k)

  pub send_commit-Kept :
      (c : Consensus) (m : Message) → AllKept s c → Ensures (AllKept s) (send_commit s c m)
  unfolding send_commit
  send_commit-Kept c m k =
      if_cases (Ensures (AllKept s)) (current c).commit_sent _ _ (λ _. k)
        (λ _. >>=-Ensures (AllKept s) (deliver_commit s c (commit_message s m)) _ (λ c1 e.
          let kept = Ensures-eq (AllKept s) _ (deliver_commit-Kept c (commit_message s m) k) e in
          write-Kept s c1.heap c1.current_round _ kept (kept c1.current_round)))

  pub track_max-Kept :
      (c : Consensus) (p round : ℕ) → AllKept s c → Ensures (AllKept s) (track_max s c p round)
  unfolding track_max
  track_max-Kept c p round k =
      if_cases (Ensures (AllKept s))
        (p == c.current_round && leb (quorum s) (num_round_changes (c.heap p))) _ _
        (λ _. >>=-Ensures (AllKept s) (round_leader s round) _ (λ leader _.
          if_cases (AllKept s) (leader == s.identity) _ _
            (λ _. write-Kept s c.heap p _ k (get_max_proposed-Kept s (c.heap p) (k p))) (λ _. k)))
        (λ _. k)

  pub follow_round-Kept :
      (c : Consensus) (round : ℕ) (signed : SignedProto)
      → AllKept s c
      → AllKept s (follow_round s c round signed)
  unfolding follow_round
  follow_round-Kept c round signed k =
      if_cases (AllKept s) (ltb (current c).round_number round) _ _
        (λ _. switch_round-Kept c round k) (λ _. k)

  pub enter_selected-Kept :
      (c : Consensus) (m : Message) (now : ℕ) → AllKept s c → AllKept s (enter_selected s c m now)
  unfolding enter_selected
  enter_selected-Kept c m now k =
      if_cases (AllKept s) (ltb (rank (current c).stage) (rank Stage.lock_release)) _ _
        (λ _.
          propose-Kept (lock_release s _) m.state
            (lock_release-Kept _ (set_stage-Kept c Stage.lock_release k)))
        (λ _. k)

  pub enter_locked-Kept :
      (c : Consensus) (m : Message) (signed : SignedProto) (now : ℕ)
      → AllKept s c
      → AllKept s (enter_locked s c m signed now)
  unfolding enter_locked
  enter_locked-Kept c m signed now k =
      if_cases (AllKept s) (ltb (rank (current c).stage) (rank Stage.commit)) _ _
        (λ _. set_stage-Kept c Stage.commit k) (λ _. k)
