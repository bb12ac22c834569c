-- ===== src/Consensus/Monotone.antt =====
-- Each case of `receiveMessage` in consensus.go, the order of the rounds, height and round.
use bdls.Base.{
  ℕ, ◌+◌, ◌≤◌, ◌<◌, ◌≡◌, refl, ◌∙◌, ap, List, Option, none, some, Bool, arith, ltb, ltb→lt, not-ltb,
  leb, ◌==◌, inl, ◌&&◌, any_of, ok, >>-eq-ok, Ensures, Ensures-map, >>=-Ensures, if_cases, u64,
  word,
}
use bdls.Message.{State, Message, Bytes, SignedProto}
use bdls.Round.{Round, Tuple, add_commit, num_committed, same_signer}
use bdls.Consensus.State.{Consensus, Setup, current, quorum, set_round}
use bdls.Consensus.Rounds.{switch_round, height_sync, round_leader}
use bdls.Consensus.InOrder.{
  numbers, InOrder, Frame, Frame-refl, SameCore-trans, InOrder-Frame, set_round-Frame,
  switch_round-InOrder,
}
use bdls.Consensus.Frames.{
  broadcast_round_change-Frame, enter_selected-Frame, enter_locked-Frame, send_commit-Frame,
  broadcast_decide-Frame,
}
use bdls.Consensus.Send.{broadcast_round_change, broadcast_decide, send_commit}
use bdls.Consensus.Verify.{
  verify_lock, verify_lock_release, verify_select, verify_commit, verify_decide,
}
use bdls.Consensus.Handlers.{
  follow_round, on_select, enter_locked, on_lock, release_lock, on_lock_release, decide,
  add_committed, on_commit, on_decide,
}
use bdls.Consensus.Agreement.{verify_decide-Certificate}
use bdls.Consensus.Progress.{
  NotBehind, Advances, Advances-Frame, Advances-trans, switch_round-Advances, height_sync-InOrder,
}

verify_lock-round :
    (s : Setup) (c : Consensus) (m : Message) (signed : SignedProto) {u : Unit {0}}
    → verify_lock s c m signed ≡ ok u
    → numbers c c.current_round ≤ m.round
unfolding verify_lock
verify_lock-round s c m signed h =
    let (_, h1) = >>-eq-ok _ _ _ h in
    let (above, _) = >>-eq-ok _ _ _ h1 in not-ltb m.round (numbers c c.current_round) above

verify_select-round :
    (s : Setup) (c : Consensus) (m : Message) (signed : SignedProto) {u : Unit {0}}
    → verify_select s c m signed ≡ ok u
    → numbers c c.current_round ≤ m.round
unfolding verify_select
verify_select-round s c m signed h =
    let (_, h1) = >>-eq-ok _ _ _ h in
    let (above, _) = >>-eq-ok _ _ _ h1 in not-ltb m.round (numbers c c.current_round) above

add_commit-number :
    (hash : State → ℕ) (r : Round) (sp : SignedProto) (m : Message)
    → (add_commit hash r sp m).0.round_number ≡ r.round_number
unfolding add_commit
add_commit-number hash r sp m =
    if_cases (λ (q : Round × Bool). q.0.round_number ≡ r.round_number)
      (any_of (same_signer sp.x sp.y) r.commits) _ _ (λ _. refl) (λ _. refl)

module _ (s : Setup) where
  follow_round-Advances :
      (c : Consensus) (round : ℕ) (signed : SignedProto)
      → InOrder c
      → Advances c (follow_round s c round signed)
  unfolding follow_round
  follow_round-Advances c round signed i =
      if_cases (Advances c) (ltb (current c).round_number round) _ _
        (λ above.
          Advances-trans c (switch_round c round) _
            (switch_round-Advances c round i (omega (arith, ltb→lt _ _ above)))
            (Advances-Frame (switch_round c round) _ (Frame-refl (switch_round c round))
              (switch_round-InOrder c round i.ascending i.allocated).0))
        (λ _. Advances-Frame c c (Frame-refl c) i)

  pub on_select-Advances :
      (c : Consensus) (m : Message) (signed : SignedProto) (now : ℕ)
      → InOrder c
      → Ensures (Advances c) (on_select s c m signed now)
  unfolding on_select
  on_select-Advances c m signed now i =
      >>=-Ensures (Advances c) (verify_select s c m signed) _ λ _ _.
        let c1 = follow_round s c m.round signed in
        let first = follow_round-Advances c m.round signed i in
        Advances-trans c c1 _ first
          (Advances-Frame c1 _ (enter_selected-Frame s c1 m now) first.in_order)

  pub on_lock-Advances :
      (c : Consensus) (m : Message) (signed : SignedProto) (now : ℕ)
      → InOrder c
      → Ensures (Advances c) (on_lock s c m signed now)
  unfolding on_lock
  on_lock-Advances c m signed now i = >>=-Ensures (Advances c) (verify_lock s c m signed) _ λ _ _.
      let c1 = follow_round s c m.round signed in
      let first = follow_round-Advances c m.round signed i in
      let c2 = enter_locked s c1 m signed now in
      Ensures-map (Frame c2) (Advances c) (send_commit s c2 m)
        (λ d f. Advances-trans c c1 d first (
          Advances-Frame c1 d (SameCore-trans (enter_locked-Frame s c1 m signed now) f)
            first.in_order))
        (send_commit-Frame s c2 m)

  pub on_lock_release-Advances :
      (c : Consensus) (m : Message) → InOrder c → Ensures (Advances c) (on_lock_release s c m)
  unfolding on_lock_release release_lock
  on_lock_release-Advances c m i = released m.lock_release
    where
      still : Advances c c
      still = Advances-Frame c c (Frame-refl c) i

      kept : (locks : List Tuple) → Advances c (record c { locks = locks })
      kept locks = record {
        in_order = InOrder-Frame c _ (Frame-refl c) i;
        not_behind = still.not_behind;
      }

      released : (o : Option SignedProto) → Ensures (Advances c) (release_lock s c o)
      released none = >>=-Ensures (Advances c) (verify_lock_release s c none) _ (λ _ _. still)
      released (some signed) =
          >>=-Ensures (Advances c) (verify_lock_release s c (some signed)) _ (λ _ _. kept _)

  -- A new height, as it is announced.
  next_height-InOrder :
      (c : Consensus) (height round timeout : ℕ) (st : State)
      → let d =
          broadcast_round_change s
            (record (height_sync c height round st) { rc_timeout = timeout }) in
        InOrder d × (d.latest_height ≡ height)
  next_height-InOrder c height round timeout st =
      let c2 = height_sync c height round st in
      let (order, reached) = height_sync-InOrder c height round st in
      let sent = broadcast_round_change-Frame s (record c2 { rc_timeout = timeout }) in
      (InOrder-Frame c2 _ sent order, sent.same_height ∙ reached)

  decide-InOrder :
      (c : Consensus) (now : ℕ)
      → InOrder (decide s c now) × ((decide s c now).latest_height ≡ u64 (c.latest_height + 1))
  unfolding decide
  decide-InOrder c now =
      let (c1, sp) = broadcast_decide s c in
      let c2 = record c1 { latest_proof = some sp } in
      let (order, reached) =
        next_height-InOrder c2 (u64 (c2.latest_height + 1)) (current c2).round_number _
          (current c2).locked_state in
      (order, reached ∙ ap (λ (h : ℕ). u64 (h + 1)) (broadcast_decide-Frame s c).same_height)

  pub on_decide-Advances :
      (c : Consensus) (bts : Bytes) (m : Message) (signed : SignedProto) (now : ℕ)
      → Ensures (Advances c) (on_decide s c bts m signed now)
  unfolding on_decide
  on_decide-Advances c bts m signed now =
      >>=-Ensures (Advances c) (verify_decide s c m signed) _ λ _ checked.
        let (order, reached) = next_height-InOrder _ m.height m.round _ m.state in
        record {
          in_order = order;
          not_behind =
              inl (omega (arith, reached, (verify_decide-Certificate s c m signed checked).0));
        }

  add_committed-InOrder :
      (c : Consensus) (m : Message) (signed : SignedProto) (now : ℕ)
      → InOrder c
      → InOrder (add_committed s c m signed now)
        × (c.latest_height + 1 < word → NotBehind c (add_committed s c m signed now))
  unfolding add_committed
  add_committed-InOrder c m signed now i =
      let (r, added) = add_commit s.state_hash (current c) signed m in
      let c1 = set_round c c.current_round r in
      let stored : Frame c c1 =
        set_round-Frame c c.current_round r (add_commit-number s.state_hash (current c) signed m) in
      let (order, reached) = decide-InOrder c1 now in
      if_cases (λ d. InOrder d × (c.latest_height + 1 < word → NotBehind c d))
        (added && leb (quorum s) (num_committed r)) _ _
        (λ _. (order, λ fits. inl (omega (arith, reached))))
        (λ _. let still = Advances-Frame c c1 stored i in (still.in_order, λ _. still.not_behind))

  pub on_commit-InOrder :
      (c : Consensus) (m : Message) (signed : SignedProto) (now : ℕ)
      → InOrder c
      → Ensures
          (λ d. InOrder d × (c.latest_height + 1 < word → NotBehind c d))
          (on_commit s c m signed now)
  unfolding on_commit
  on_commit-InOrder c m signed now i =
      >>=-Ensures (λ d. InOrder d × (c.latest_height + 1 < word → NotBehind c d))
        (round_leader s m.round) _
        λ leader _.
          if_cases (Ensures (λ d. InOrder d × (c.latest_height + 1 < word → NotBehind c d)))
            (leader == s.identity) _ _
            (λ _.
              >>=-Ensures (λ d. InOrder d × (c.latest_height + 1 < word → NotBehind c d))
                (verify_commit s c m) _ (λ _ _. add_committed-InOrder c m signed now i))
            (λ _. let still = Advances-Frame c c (Frame-refl c) i in (i, λ _. still.not_behind))
