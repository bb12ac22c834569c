-- ===== src/Consensus/Joining.antt =====
-- The case <roundchange> of `receiveMessage` in consensus.go, the order of the rounds, height and
-- round.
use bdls.Base.{
  ℕ, ◌≤◌, ◌≡◌, refl, some, false, arith, ltb, not-ltb, ◌==◌, if◌then◌else◌, inr, ◌&&◌, ok, >>-eq-ok,
  Ensures, Ensures-eq, Ensures-map, >>=-Ensures, if_cases,
}
use bdls.Message.{Message, SignedProto}
use bdls.Round.{Stage, rank, num_round_changes, signed_round_changes, add_round_change}
use bdls.Consensus.State.{Consensus, Setup, current, quorum, set_round}
use bdls.Consensus.Rounds.{get_round, switch_round, round_leader}
use bdls.Consensus.InOrder.{numbers, InOrder, Frame, SameCore-trans, current-Frame, set_round-Frame}
use bdls.Consensus.Frames.{set_stage-Frame, broadcast_round_change-Frame, track_max-Frame}
use bdls.Consensus.Scanned.{Scanned, scan_rounds-Scanned}
use bdls.Consensus.Send.{broadcast_round_change}
use bdls.Consensus.Verify.{verify_round_change}
use bdls.Consensus.Handlers.{scan_rounds, enter_lock, accept_round_change, on_round_change}
use bdls.Consensus.Progress.{
  Advances, Advances-Frame, Advances-trans, switch_round-Advances, get_round-current,
  get_round-Advances, add_round_change-number, Scanned-InOrder,
}

-- Messages of rounds below the current one do not pass.
verify_round_change-round :
    (s : Setup) (c : Consensus) (m : Message) {u : Unit {0}}
    → verify_round_change s c m ≡ ok u
    → numbers c c.current_round ≤ m.round
unfolding verify_round_change
verify_round_change-round s c m h =
    let (_, h1) = >>-eq-ok _ _ _ h in
    let (above, _) = >>-eq-ok _ _ _ h1 in not-ltb m.round (numbers c c.current_round) above

module _ (s : Setup) where
  enter_lock-Advances :
      (c : Consensus) (round now : ℕ)
      → InOrder c
      → numbers c c.current_round ≤ round
      → Ensures (Advances c) (enter_lock s c round now)
  unfolding enter_lock
  enter_lock-Advances c round now i h =
      let c1 = switch_round c round in
      let c2 = record c1 { last_round_change_proof = some (signed_round_changes (current c1)) } in
      let c3 = broadcast_round_change s c2 in
      let first = switch_round-Advances c round i h in
      let sent = broadcast_round_change-Frame s c2 in
      >>=-Ensures (Advances c) (round_leader s round) _ (λ leader _.
        Advances-trans c c1 _ first (
          Advances-Frame c1 _ (SameCore-trans sent (set_stage-Frame c3 Stage.lock)) first.in_order))

  accept_round_change-Advances :
      (c : Consensus) (m : Message) (signed : SignedProto) (now : ℕ)
      → InOrder c
      → numbers c c.current_round ≤ m.round
      → Ensures (Advances c) (accept_round_change s c m signed now)
  unfolding accept_round_change
  accept_round_change-Advances c m signed now i h =
      let (c1, p) = get_round c m.round false in
      let (r, added) = add_round_change s.state_hash (c1.heap p) signed m in
      let c2 = set_round c1 p r in
      let first = get_round-Advances c m.round i h in
      let second = Advances-trans c c1 c2 first (
        Advances-Frame c1 c2
          (set_round-Frame c1 p r (add_round_change-number s.state_hash (c1.heap p) signed m))
          first.in_order) in
      let full = num_round_changes r == quorum s && ltb (rank r.stage) (rank Stage.lock) in
      let still : numbers c2 c2.current_round ≤ m.round = omega (
        arith,
        get_round-current c m.round i,
        current-Frame c1 c2
            (set_round-Frame c1 p r (add_round_change-number s.state_hash (c1.heap p) signed m)),
      ) in
      let third =
        if_cases (Ensures (Advances c)) full (enter_lock s c2 m.round now) (ok c2)
          (λ _.
            Ensures-map (Advances c2) (Advances c) _ (λ c3. Advances-trans c c2 c3 second)
              (enter_lock-Advances c2 m.round now second.in_order still))
          (λ _. second) in
      if_cases (Ensures (Advances c)) added _ _
        (λ _.
          >>=-Ensures (Advances c) (if full then enter_lock s c2 m.round now else ok c2) _ (λ c3 e.
            let reached = Ensures-eq (Advances c) _ third e in
            Ensures-map (Frame c3) (Advances c) _
              (λ d f. Advances-trans c c3 d reached (Advances-Frame c3 d f reached.in_order))
              (track_max-Frame s c3 p m.round)))
        (λ _. first)

  pub on_round_change-Advances :
      (c : Consensus) (m : Message) (signed : SignedProto) (now : ℕ)
      → InOrder c
      → Ensures (Advances c) (on_round_change s c m signed now)
  unfolding on_round_change
  on_round_change-Advances c m signed now i =
      >>=-Ensures (Advances c) (verify_round_change s c m) _ λ _ checked.
        >>=-Ensures (Advances c)
          (scan_rounds (current c).round_number m.round signed.x signed.y c.heap c.rounds) _
          λ scan e.
            let kept =
              Ensures-eq (Scanned c.heap c.rounds) _
                (scan_rounds-Scanned (current c).round_number m.round signed.x signed.y c.heap
                  c.rounds)
                e in
            let c1 = record c { rounds = scan.refs; heap = scan.heap } in
            let cur = kept.same_numbers c.current_round in
            let order = Scanned-InOrder c scan kept i in
            let first : Advances c c1 = record {
              in_order = order;
              not_behind = inr (refl, omega (arith, cur));
            } in
            if_cases (Ensures (Advances c)) scan.stop _ _ (λ _. first)
              (λ _.
                Ensures-map (Advances c1) (Advances c) _ (λ d. Advances-trans c c1 d first)
                  (accept_round_change-Advances c1 m signed now order
                    (omega (arith, cur, verify_round_change-round s c m checked))))
