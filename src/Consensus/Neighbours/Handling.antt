-- ===== src/Consensus/Neighbours/Handling.antt =====
-- The peers of the object of consensus.go under the messages of each type.
use bdls.Base.{
  ℕ, refl, ◌∙◌, Option, none, some, false, ltb, leb, ◌==◌, ◌&&◌, if◌then◌else◌, ok, require,
  Ensures, Ensures-eq, Ensures-map, >>=-Ensures, if_cases,
}
use bdls.Message.{Bytes, Message, MessageType, SignedProto, protocol_version}
use bdls.Round.{Stage, rank, add_round_change, add_commit, num_round_changes, num_committed}
use bdls.Consensus.State.{Consensus, Setup, quorum, current, set_round}
use bdls.Consensus.Rounds.{get_round, round_leader}
use bdls.Consensus.Checks.{decoded, verify_message}
use bdls.Consensus.Verify.{
  verify_round_change, verify_lock, verify_lock_release, verify_select, verify_commit,
  verify_decide,
}
use bdls.Consensus.Send.{propagate, broadcast, broadcast_decide}
use bdls.Consensus.Handlers.{
  scan_rounds, enter_lock, track_max, set_max, accept_round_change, on_round_change, follow_round,
  enter_selected, on_select, enter_locked, on_lock, release_lock, on_lock_release, decide,
  add_committed, on_commit, on_decide, on_resync,
}
use bdls.Consensus.Receive.{accepts, dispatch, receive}
use bdls.Consensus.Neighbours.{
  SamePeers, switch_round-peers, get_round-peers, height_sync-peers, round_change-peers,
  lock_release-peers, propose-peers, send_commit-peers,
}

module _ (s : Setup) where
  enter_lock-peers :
      (c : Consensus) (round now : ℕ) → Ensures (SamePeers c) (enter_lock s c round now)
  unfolding enter_lock
  enter_lock-peers c round now =
      >>=-Ensures (SamePeers c) (round_leader s round) _
        (λ leader _. round_change-peers s _ ∙ switch_round-peers c round)

  track_max-peers : (c : Consensus) (p round : ℕ) → Ensures (SamePeers c) (track_max s c p round)
  unfolding track_max
  track_max-peers c p round =
      if_cases (Ensures (SamePeers c))
        (p == c.current_round && leb (quorum s) (num_round_changes (c.heap p))) _ _
        (λ _. >>=-Ensures (SamePeers c) (round_leader s round) _ (λ leader _.
          if_cases (SamePeers c) (leader == s.identity) (set_max s c p) c (λ _. refl) (λ _. refl)))
        (λ _. refl)

  accept_round_change-peers :
      (c : Consensus) (m : Message) (signed : SignedProto) (now : ℕ)
      → Ensures (SamePeers c) (accept_round_change s c m signed now)
  unfolding accept_round_change
  accept_round_change-peers c m signed now =
      let (c1, p) = get_round c m.round false in
      let (r, added) = add_round_change s.state_hash (c1.heap p) signed m in
      let c2 = set_round c1 p r in
      let full = num_round_changes r == quorum s && ltb (rank r.stage) (rank Stage.lock) in
      let found = get_round-peers c m.round false in
      let entered : Ensures (SamePeers c2) (if full then enter_lock s c2 m.round now else ok c2) =
        if_cases (Ensures (SamePeers c2)) full (enter_lock s c2 m.round now) (ok c2)
          (λ _. enter_lock-peers c2 m.round now) (λ _. refl) in
      if_cases (Ensures (SamePeers c)) added _ _
        (λ _.
          >>=-Ensures (SamePeers c) (if full then enter_lock s c2 m.round now else ok c2) _ (λ c3 e.
            Ensures-map (SamePeers c3) (SamePeers c) _
              (λ d h. h ∙ Ensures-eq (SamePeers c2) _ entered e ∙ found)
              (track_max-peers c3 p m.round)))
        (λ _. found)

  on_round_change-peers :
      (c : Consensus) (m : Message) (signed : SignedProto) (now : ℕ)
      → Ensures (SamePeers c) (on_round_change s c m signed now)
  unfolding on_round_change
  on_round_change-peers c m signed now =
      >>=-Ensures (SamePeers c) (verify_round_change s c m) _ λ _ _.
        >>=-Ensures (SamePeers c)
          (scan_rounds (current c).round_number m.round signed.x signed.y c.heap c.rounds) _
          λ scan _.
            let c1 = record c { rounds = scan.refs; heap = scan.heap } in
            if_cases (Ensures (SamePeers c)) scan.stop (ok c1)
              (accept_round_change s c1 m signed now) (λ _. refl)
              (λ _. accept_round_change-peers c1 m signed now)

  follow_round-peers :
      (c : Consensus) (round : ℕ) (signed : SignedProto)
      → SamePeers c (follow_round s c round signed)
  unfolding follow_round
  follow_round-peers c round signed =
      if_cases (SamePeers c) (ltb (current c).round_number round) _ _
        (λ _. switch_round-peers c round) (λ _. refl)

  enter_selected-peers :
      (c : Consensus) (m : Message) (now : ℕ) → SamePeers c (enter_selected s c m now)
  unfolding enter_selected
  enter_selected-peers c m now =
      if_cases (SamePeers c) (ltb (rank (current c).stage) (rank Stage.lock_release)) _ _
        (λ _. propose-peers s _ m.state ∙ lock_release-peers s _) (λ _. refl)

  enter_locked-peers :
      (c : Consensus) (m : Message) (signed : SignedProto) (now : ℕ)
      → SamePeers c (enter_locked s c m signed now)
  unfolding enter_locked
  enter_locked-peers c m signed now =
      if_cases (SamePeers c) (ltb (rank (current c).stage) (rank Stage.commit)) _ _ (λ _. refl)
        (λ _. refl)

  release_lock-peers :
      (c : Consensus) (o : Option SignedProto) → Ensures (SamePeers c) (release_lock s c o)
  unfolding release_lock
  release_lock-peers c none =
      >>=-Ensures (SamePeers c) (verify_lock_release s c none) _ (λ _ _. refl)
  release_lock-peers c (some signed) =
      >>=-Ensures (SamePeers c) (verify_lock_release s c (some signed)) _ (λ _ _. refl)

  decide-peers : (c : Consensus) (now : ℕ) → SamePeers c (decide s c now)
  unfolding decide broadcast_decide broadcast
  decide-peers c now = round_change-peers s _ ∙ height_sync-peers _ _ _ _

  add_committed-peers :
      (c : Consensus) (m : Message) (signed : SignedProto) (now : ℕ)
      → SamePeers c (add_committed s c m signed now)
  unfolding add_committed
  add_committed-peers c m signed now =
      let (r, added) = add_commit s.state_hash (current c) signed m in
      let c1 = set_round c c.current_round r in
      if_cases (SamePeers c) (added && leb (quorum s) (num_committed r)) (decide s c1 now) c1
        (λ _. decide-peers c1 now) (λ _. refl)

  on_commit-peers :
      (c : Consensus) (m : Message) (signed : SignedProto) (now : ℕ)
      → Ensures (SamePeers c) (on_commit s c m signed now)
  unfolding on_commit
  on_commit-peers c m signed now = >>=-Ensures (SamePeers c) (round_leader s m.round) _ λ leader _.
      if_cases (Ensures (SamePeers c)) (leader == s.identity) _ _
        (λ _.
          >>=-Ensures (SamePeers c) (verify_commit s c m) _
            (λ _ _. add_committed-peers c m signed now))
        (λ _. refl)

  dispatch-peers :
      (kind : MessageType) (c : Consensus) (bts : Bytes) (m : Message) (signed : SignedProto)
      (now : ℕ)
      → Ensures (SamePeers c) (dispatch s kind c bts m signed now)
  unfolding dispatch on_select on_lock on_lock_release on_decide on_resync propagate
  dispatch-peers MessageType.nop c bts m signed now = refl
  dispatch-peers MessageType.round_change c bts m signed now = on_round_change-peers c m signed now
  dispatch-peers MessageType.select c bts m signed now =
      >>=-Ensures (SamePeers c) (verify_select s c m signed) _
        (λ _ _. enter_selected-peers _ m now ∙ follow_round-peers c m.round signed)
  dispatch-peers MessageType.lock c bts m signed now =
      >>=-Ensures (SamePeers c) (verify_lock s c m signed) _ λ _ _.
        let c1 = follow_round s c m.round signed in
        Ensures-map (SamePeers (enter_locked s c1 m signed now)) (SamePeers c) _
          (λ d h. h ∙ enter_locked-peers c1 m signed now ∙ follow_round-peers c m.round signed)
          (send_commit-peers s (enter_locked s c1 m signed now) m)
  dispatch-peers MessageType.lock_release c bts m signed now = release_lock-peers c m.lock_release
  dispatch-peers MessageType.commit c bts m signed now = on_commit-peers c m signed now
  dispatch-peers MessageType.decide c bts m signed now =
      >>=-Ensures (SamePeers c) (verify_decide s c m signed) _
        (λ _ _. round_change-peers s _ ∙ height_sync-peers _ m.height m.round m.state)
  dispatch-peers MessageType.resync c bts m signed now = refl
  dispatch-peers (MessageType.other n) c bts m signed now = tt

  pub receive-peers :
      (c : Consensus) (bts : Bytes) (now : ℕ) → Ensures (SamePeers c) (receive s c bts now)
  unfolding receive
  receive-peers c bts now =
      >>=-Ensures (SamePeers c) (decoded (s.lib.unmarshal_signed bts)) _ λ signed _.
        >>=-Ensures (SamePeers c) (require (signed.version == protocol_version) _) _ λ _ _.
          >>=-Ensures (SamePeers c) (verify_message s (some signed)) _ λ m _.
            >>=-Ensures (SamePeers c) (require (accepts s c m signed) _) _
              λ _ _. dispatch-peers m.kind c bts m signed now
