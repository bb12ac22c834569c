-- ===== src/Consensus/Synced.antt =====
-- The end of a height: heightSync of consensus.go, and the cases <decide> and <commit>.
use mathlib.Core.Path.{fun_ext}
use bdls.Base.{
  ℕ, ◌+◌, ◌≡◌, ◌≢◌, ==→eq, ◌<◌, ◌++◌, refl, ap, ◌∙◌, [], ◌∷◌, none, some, Bool, true, false,
  if_cases, inl, inr, ◌⊎◌, arith, ok, ok-injective, sym, subst, >>=-eq-ok, Ensures, >>=-Ensures,
  eq_self, ◌==◌, u64, ◌&&◌, leb, any_of, count_if, if◌then◌else◌, map, ◌≤◌, Bool-cases,
}
use bdls.Message.{Bytes, State, Message, MessageType, SignedProto, empty_message}
use bdls.Message.Signing.{sign}
use bdls.Round.{Round, Tuple, new_round, add_commit, num_committed, signed_commits}
use bdls.Consensus.State.{Consensus, Setup, callback, current, quorum, set_round, write}
use bdls.Consensus.Timing.{round_change_duration, time_add}
use bdls.Consensus.Rounds.{height_sync, switch_round, get_round, search_round, round_leader}
use bdls.Consensus.Proposals.{maximal_locked, maximal_unconfirmed, maximal}
use bdls.Consensus.Send.{
  propagate, broadcast, seal, to_all, broadcast_round_change, send_round_change, proposal,
  broadcast_decide,
}
use bdls.Consensus.Verify.{verify_decide, verify_commit}
use bdls.Consensus.Agreement.{verify_decide-Certificate}
use bdls.Consensus.Handlers.{on_decide, decide, add_committed, on_commit}

-- At the start of a height: the decided state, height and round are recorded, the only round is a
-- new round 0, and nothing of the height before is left: no proposals, no locks, no proof of a round.
pub record Fresh (c : Consensus) (height round : ℕ) (st : State) : Type 0 where
  pub height_set : c.latest_height ≡ height
  pub round_set : c.latest_round ≡ round
  pub state_set : c.latest_state ≡ st
  pub only_round : c.rounds ≡ c.current_round ∷ []
  pub new : current c ≡ new_round 0
  pub no_locks : c.locks ≡ []
  pub no_proposals : c.unconfirmed ≡ []
  pub no_proof : c.last_round_change_proof ≡ none

height_sync-Fresh :
    (c : Consensus) (height round : ℕ) (st : State)
    → Fresh (height_sync c height round st) height round st
unfolding height_sync switch_round get_round search_round new_round
height_sync-Fresh c height round st = record {
  height_set = refl;
  round_set = refl;
  state_set = refl;
  only_round = refl;
  new = rw (eq_self c.next_ref) refl;
  no_locks = refl;
  no_proposals = refl;
  no_proof = refl;
}

module _ (s : Setup) where
  -- With neither locks nor proposals there is nothing to send.
  pub broadcast_round_change-idle :
      (c : Consensus) → c.locks ≡ [] → c.unconfirmed ≡ [] → broadcast_round_change s c ≡ c
  unfolding broadcast_round_change proposal maximal_locked maximal_unconfirmed maximal
      send_round_change
  broadcast_round_change-idle c l u = ground arith

  -- `heightSync`, the timeout, `broadcastRoundChange`: how both cases end.
  abbrev restart : Consensus → ℕ → ℕ → State → ℕ → Consensus
  restart c height round st timeout = record (height_sync c height round st) {
    rc_timeout = timeout;
  }

  restart-Fresh :
      (c : Consensus) (height round : ℕ) (st : State) (timeout : ℕ)
      → Fresh (restart c height round st timeout) height round st
  restart-Fresh c height round st timeout =
      let f = height_sync-Fresh c height round st in
      record {
        height_set = f.height_set;
        round_set = f.round_set;
        state_set = f.state_set;
        only_round = f.only_round;
        new = f.new;
        no_locks = f.no_locks;
        no_proposals = f.no_proposals;
        no_proof = f.no_proof;
      }

  -- Nothing is sent at the start of a height, and the outside of the object stays as it is.
  broadcast_round_change-restart :
      (c : Consensus) (height round : ℕ) (st : State) (timeout : ℕ)
      → (broadcast_round_change s (restart c height round st timeout)
          ≡ restart c height round st timeout)
        × ((restart c height round st timeout).outputs ≡ c.outputs)
        × ((restart c height round st timeout).loopback ≡ c.loopback)
        × ((restart c height round st timeout).latest_proof ≡ c.latest_proof)
        × ((restart c height round st timeout).rand ≡ c.rand)
        × ((height_sync c height round st).latency ≡ c.latency)
  unfolding height_sync switch_round get_round search_round
  broadcast_round_change-restart c height round st timeout = (
    broadcast_round_change-idle (restart c height round st timeout) refl refl,
    refl,
    refl,
    refl,
    refl,
    refl,
  )

  -- A <decide> message that is accepted is of a height above the current one and takes the
  -- participant to it: its state and round are recorded and the height starts afresh, the message is
  -- kept as the proof and passed on unchanged to all peers and to nobody else, the participant sends
  -- nothing of its own, and the timeout of round 0 is set.
  pub on_decide-Fresh :
      (c : Consensus) (bts : Bytes) (m : Message) (signed : SignedProto) (now : ℕ) (d : Consensus)
      → on_decide s c bts m signed now ≡ ok d
      → (c.latest_height < m.height)
        × Fresh d m.height m.round m.state
        × (d.latest_proof ≡ some signed)
        × (d.outputs ≡ c.outputs ++ to_all c.peers bts)
        × (d.loopback ≡ c.loopback)
        × (d.rand ≡ c.rand)
        × (d.rc_timeout ≡ time_add now (round_change_duration c.latency 0))
  unfolding on_decide propagate
  on_decide-Fresh c bts m signed now d h =
      let (_, accepted, e) = >>=-eq-ok (verify_decide s c m signed) _ h in
      let higher = (verify_decide-Certificate s c m signed accepted).0 in
      let c1 = propagate (record c { latest_proof = some signed }) bts in
      let timeout =
        time_add now (round_change_duration (height_sync c1 m.height m.round m.state).latency 0) in
      let (idle, outputs, loopback, proof, rand, latency) =
        broadcast_round_change-restart c1 m.height m.round m.state timeout in
      let same : restart c1 m.height m.round m.state timeout ≡ d = sym idle ∙ ok-injective e in
      (
        higher,
        subst (λ x. Fresh x m.height m.round m.state) same
            (restart-Fresh c1 m.height m.round m.state timeout),
        ap (λ (x : Consensus). x.latest_proof) (sym same) ∙ proof,
        ap (λ (x : Consensus). x.outputs) (sym same) ∙ outputs,
        ap (λ (x : Consensus). x.loopback) (sym same) ∙ loopback,
        ap (λ (x : Consensus). x.rand) (sym same) ∙ rand,
        ap (λ (x : Consensus). x.rc_timeout) (sym same)
            ∙ ap (λ l. time_add now (round_change_duration l 0)) latency,
      )

  -- The object behind the <decide> message that its leader sends.
  abbrev told : Consensus → Consensus
  told c = let (c1, sp) = broadcast_decide s c in record c1 { latest_proof = some sp }

  decide-Fresh :
      (c : Consensus) (now : ℕ)
      → Fresh
          (decide s c now)
          (u64 (c.latest_height + 1))
          (current c).round_number
          (current c).locked_state
        × ((decide s c now).latest_proof ≡ some (broadcast_decide s c).1)
        × ((decide s c now).loopback ≡ (broadcast_decide s c).0.loopback)
        × ((decide s c now).outputs ≡ (broadcast_decide s c).0.outputs)
        × ((decide s c now).rc_timeout
            ≡ time_add now (u64 (round_change_duration c.latency 0 + c.latency)))
  unfolding decide broadcast_decide broadcast seal
  decide-Fresh c now =
      let height = u64 (c.latest_height + 1) in
      let round = (current c).round_number in
      let st = (current c).locked_state in
      let synced = height_sync (told c) height round st in
      let timeout = time_add now (u64 (round_change_duration synced.latency 0 + synced.latency)) in
      let (idle, outputs, loopback, proof, _, latency) =
        broadcast_round_change-restart (told c) height round st timeout in
      (
        subst (λ x. Fresh x height round st) (sym idle)
            (restart-Fresh (told c) height round st timeout),
        ap (λ (x : Consensus). x.latest_proof) idle ∙ proof,
        ap (λ (x : Consensus). x.loopback) idle ∙ loopback,
        ap (λ (x : Consensus). x.outputs) idle ∙ outputs,
        ap (λ (x : Consensus). x.rc_timeout) idle
            ∙ ap (λ (l : ℕ). time_add now (u64 (round_change_duration l 0 + l))) latency,
      )

  -- The leader's current round with a <commit> message at the end of its commits.
  abbrev pub recorded : Consensus → Message → SignedProto → Round
  recorded c m signed = record (current c) {
    commits =
        (current c).commits
        ++ record { state_hash = s.state_hash m.state; message = m; signed = signed } ∷ [];
  }

  -- Whether the current round has a commit by the key of an envelope.
  abbrev pub has_commit : Consensus → SignedProto → Bool
  has_commit c signed =
      any_of (λ (t : Tuple). t.signed.x == signed.x && t.signed.y == signed.y) (current c).commits

  -- How many commits of a round are for its locked state.
  abbrev pub for_locked : Round → ℕ
  for_locked r = count_if (λ (t : Tuple). t.state_hash == r.locked_state_hash) r.commits

  -- The <decide> message for a round: its locked state, and all its commits as the proof.
  abbrev pub decide_content : Consensus → Round → Message
  decide_content c r = record empty_message {
    kind = MessageType.decide;
    height = u64 (c.latest_height + 1);
    round = r.round_number;
    state = r.locked_state;
    proof = map (λ (t : Tuple). t.signed) r.commits;
  }

  -- The height has ended on the locked state of the round `r`, with the <decide> message for it sent
  -- to all peers and to oneself, and kept.
  pub record Ended (c : Consensus) (r : Round) (now : ℕ) (d : Consensus) : Type 0 where
    pub fresh : Fresh d (u64 (c.latest_height + 1)) r.round_number r.locked_state
    pub sent : SignedProto
    pub signed_so : sent ≡ sign s.lib c.rand (decide_content c r) s.private_key
    pub proof : d.latest_proof ≡ some sent
    pub outputs :
        d.outputs
        ≡ (if s.has_callback
            then c.outputs ++ callback (decide_content c r) sent ∷ []
            else c.outputs)
          ++ to_all c.peers (s.lib.marshal_signed sent)
    pub loopback : d.loopback ≡ c.loopback ++ s.lib.marshal_signed sent ∷ []
    pub timeout : d.rc_timeout ≡ time_add now (u64 (round_change_duration c.latency 0 + c.latency))

  -- What a <commit> message leads to: nothing, where another one leads its round or the round has a
  -- commit by its key; else it is recorded, and either that is all, or the height has ended.
  abbrev pub Committed : Consensus → Message → SignedProto → ℕ → Consensus → Type 0
  Committed c m signed now d =
      let r = recorded c m signed in
      ((round_leader s m.round ≢ ok s.identity) × (d ≡ c))
      ⊎ ((round_leader s m.round ≡ ok s.identity)
          × (((has_commit c signed ≡ true) × (d ≡ c))
              ⊎ ((has_commit c signed ≡ false)
                  × (((for_locked r < quorum s) × (d ≡ set_round c c.current_round r))
                      ⊎ ((quorum s ≤ for_locked r) × Ended c r now d)))))

  write-same : (heap : ℕ → Round) (p : ℕ) → write heap p (heap p) ≡ heap
  write-same heap p = fun_ext λ q. elim (Bool-cases (p == q)) [
    | inl same ↦ rw same (ap heap (==→eq p q same))
    | inr other ↦ rw other refl
  ]

  decide-Ended :
      (c : Consensus) (r : Round) (now : ℕ)
      → Ended c r now (decide s (set_round c c.current_round r) now)
  unfolding broadcast_decide broadcast seal signed_commits
  decide-Ended c r now =
      let c1 = set_round c c.current_round r in
      let here : current c1 ≡ r = rw (eq_self c.current_round) refl in
      let (fresh, proof, loopback, outputs, timeout) = decide-Fresh c1 now in
      record {
        fresh =
            subst
              (λ (q : Round).
                Fresh (decide s c1 now) (u64 (c.latest_height + 1)) q.round_number q.locked_state)
              here fresh;
        sent = (broadcast_decide s c1).1;
        signed_so = ap (λ (q : Round). sign s.lib c.rand (decide_content c q) s.private_key) here;
        proof = proof;
        outputs =
            outputs
            ∙ ap
                (λ (q : Round).
                  (if s.has_callback
                    then c.outputs ++ callback (decide_content c q) (broadcast_decide s c1).1 ∷ []
                    else c.outputs)
                  ++ to_all c.peers (s.lib.marshal_signed (broadcast_decide s c1).1))
                here;
        loopback = loopback;
        timeout = timeout;
      }

  add_committed-Committed :
      (c : Consensus) (m : Message) (signed : SignedProto) (now : ℕ)
      → round_leader s m.round ≡ ok s.identity
      → Committed c m signed now (add_committed s c m signed now)
  unfolding add_committed add_commit num_committed
  add_committed-Committed c m signed now leads =
      let r = recorded c m signed in
      let after = λ (q : Round × Bool).
        let c1 = set_round c c.current_round q.0 in
        if q.1 && leb (quorum s) (num_committed q.0) then decide s c1 now else c1 in
      if_cases (λ (q : Round × Bool). Committed c m signed now (after q)) (has_commit c signed)
        (current c, false) (r, true)
        (λ there. inr (
          leads,
          inl (
            there,
            ap (λ (heap : ℕ → Round). record c { heap = heap }) (write-same c.heap c.current_round),
          ),
        ))
        (λ absent.
          if_cases (Committed c m signed now) (leb (quorum s) (for_locked r)) _ _
            (λ enough.
              inr (leads, inr (absent, inr (ground (arith, enough), decide-Ended c r now))))
            (λ few. inr (leads, inr (absent, inl (ground (arith, few), refl)))))

  -- A <commit> message that is not refused changes nothing unless the participant leads its round
  -- and the current round has no commit by its key yet. Then it goes to the end of the commits of
  -- the round, and that is all as long as less than 2t + 1 of them are for the locked state. Else
  -- the height ends on that state and round: the <decide> message for it, with all commits of the
  -- round as its proof, is signed, sent to all peers and to oneself and kept, the next height
  -- starts afresh, and its timeout is set with one latency more.
  pub on_commit-Committed :
      (c : Consensus) (m : Message) (signed : SignedProto) (now : ℕ)
      → Ensures (Committed c m signed now) (on_commit s c m signed now)
  unfolding on_commit
  on_commit-Committed c m signed now =
      >>=-Ensures (Committed c m signed now) (round_leader s m.round) _ λ leader found.
        if_cases (Ensures (Committed c m signed now)) (leader == s.identity) _ _
          (λ self.
            >>=-Ensures (Committed c m signed now) (verify_commit s c m) _
              (λ _ _. add_committed-Committed c m signed now (found ∙ ap ok (==→eq _ _ self))))
          (λ other.
            inl (λ self. absurd (ground (arith, other, ok-injective (sym found ∙ self))), refl))
