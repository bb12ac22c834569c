-- ===== src/Consensus/Collected/Handling/Committing.antt =====
-- What the rounds of consensus.go hold of commits and locked state once a <commit> message is
-- handled.
use bdls.Base.{
  ℕ, ◌+◌, ◌≡◌, ap, Option, none, some, ok-injective, is_some, Bool, true, ◌&&◌, ◌==◌, ==→eq, leb,
  if_cases, any_of, All-append, ok, require, require-eq-ok, >>-eq-ok, Ensures, >>=-Ensures, u64,
}
use bdls.Errors.{Error}
use bdls.Message.{Bytes, State, Message, MessageType, SignedProto, protocol_version}
use bdls.Round.{Round, Tuple, same_signer, add_commit, num_committed}
use bdls.Consensus.State.{Consensus, Setup, current, quorum, set_round}
use bdls.Consensus.Rounds.{round_leader, height_sync}
use bdls.Consensus.Checks.{decoded, verify_message, in_commit}
use bdls.Consensus.Verify.{verify_commit, verify_decide}
use bdls.Consensus.Send.{propagate, broadcast_round_change}
use bdls.Consensus.Handlers.{
  on_lock_release, decide, add_committed, on_commit, on_decide, on_resync,
}
use bdls.Consensus.Receive.{accepts, dispatch, receive}
use bdls.Consensus.Collected.{Read, view, Sound, Collected, Collected-write}
use bdls.Consensus.Collected.Searching.{height_sync-Collected}
use bdls.Consensus.Collected.Handling.{
  announced, on_round_change-Collected, on_lock-Collected, on_select-Collected,
  release_lock-Collected,
}

decoded-some {ℓ} : {A : Type ℓ} (o : Option A) {a : A} → decoded o ≡ ok a → o ≡ some a
decoded-some none e = absurd (cc e)
decoded-some (some b) e = ap some (ok-injective e)

module _ (s : Setup) where
  pub restarted :
      (c : Consensus) (height round timeout : ℕ) (st : State)
      → Collected s (
          broadcast_round_change s
            (record (height_sync c height round st) { rc_timeout = timeout }))
  restarted c height round timeout st =
      announced s (record (height_sync c height round st) { rc_timeout = timeout })
        (height_sync-Collected s c height round st)

  -- What the checks of a <commit> message establish.
  pub record Fits (c : Consensus) (m : Message) : Type 0 where
    pub not_nil : is_some m.state ≡ true
    pub valid : s.state_validate m.state ≡ true
    pub at_height : m.height ≡ u64 (c.latest_height + 1)
    pub at_round : (current c).round_number ≡ m.round
    pub for_locked : s.state_hash m.state ≡ (current c).locked_state_hash

  pub verify_commit-Fits :
      (c : Consensus) (m : Message) {u : Unit {0}} → verify_commit s c m ≡ ok u → Fits c m
  unfolding verify_commit
  verify_commit-Fits c m h =
      let (_, h1) = >>-eq-ok (in_commit (current c).stage) Error.commit_status _ h in
      let (a, h2) = >>-eq-ok (is_some m.state) Error.commit_empty_state _ h1 in
      let (b, h3) = >>-eq-ok (s.state_validate m.state) Error.commit_state_validation _ h2 in
      let (e, h4) =
        >>-eq-ok (m.height == u64 (c.latest_height + 1)) Error.commit_height_mismatch _ h3 in
      let (f, h5) =
        >>-eq-ok ((current c).round_number == m.round) Error.commit_round_mismatch
          (require (s.state_hash m.state == (current c).locked_state_hash)
            Error.commit_state_mismatch)
          h4 in
      record {
        not_nil = a;
        valid = b;
        at_height = ==→eq _ _ e;
        at_round = ==→eq _ _ f;
        for_locked = ==→eq _ _ (require-eq-ok _ _ h5);
      }

  pub add_commit-Sound :
      (height : ℕ) (r : Round) (m : Message) (signed : SignedProto)
      → m.height ≡ height
      → s.state_validate m.state ≡ true
      → Read s signed
      → Sound s height (view r)
      → Sound s height (view (add_commit s.state_hash r signed m).0)
  unfolding add_commit
  add_commit-Sound height r m signed at valid read k =
      if_cases (λ (q : Round × Bool). Sound s height (view q.0))
        (any_of (same_signer signed.x signed.y) r.commits) _ _ (λ _. k)
        (λ _. record {
          of_height =
              All-append (λ (t : Tuple). t.message.height ≡ height) r.commits _ k.of_height
                (at, tt);
          valid =
              All-append (λ (t : Tuple). s.state_validate t.message.state ≡ true) r.commits _
                k.valid (valid, tt);
          read = All-append (λ (t : Tuple). Read s t.signed) r.commits _ k.read (read, tt);
          hashed = k.hashed;
        })

  with_commit :
      (c : Consensus) (m : Message) (signed : SignedProto)
      → Fits c m
      → Read s signed
      → Collected s c
      → Collected s (set_round c c.current_round (add_commit s.state_hash (current c) signed m).0)
  with_commit c m signed f read k =
      Collected-write s c c.current_round (add_commit s.state_hash (current c) signed m).0
        (add_commit-Sound (u64 (c.latest_height + 1)) (current c) m signed f.at_height f.valid read
          k.0)
        k

  on_commit-Collected :
      (c : Consensus) (m : Message) (signed : SignedProto) (now : ℕ)
      → Read s signed
      → Collected s c
      → Ensures (Collected s) (on_commit s c m signed now)
  unfolding on_commit add_committed decide
  on_commit-Collected c m signed now read k =
      >>=-Ensures (Collected s) (round_leader s m.round) _ λ leader _.
        if_cases (Ensures (Collected s)) (leader == s.identity) _ (ok c)
          (λ _. >>=-Ensures (Collected s) (verify_commit s c m) _ λ _ checked.
            let (r, added) = add_commit s.state_hash (current c) signed m in
            let c1 = set_round c c.current_round r in
            if_cases (Collected s) (added && leb (quorum s) (num_committed r)) (decide s c1 now) c1
              (λ _. restarted _ _ _ _ _)
              (λ _. with_commit c m signed (verify_commit-Fits c m checked) read k))
          (λ _. k)

  dispatch-Collected :
      (kind : MessageType) (c : Consensus) (bts : Bytes) (m : Message) (signed : SignedProto)
      (now : ℕ)
      → Read s signed
      → Collected s c
      → Ensures (Collected s) (dispatch s kind c bts m signed now)
  unfolding dispatch on_lock_release on_decide on_resync propagate
  dispatch-Collected MessageType.nop c bts m signed now read k = k
  dispatch-Collected MessageType.round_change c bts m signed now read k =
      on_round_change-Collected s c m signed now k
  dispatch-Collected MessageType.select c bts m signed now read k =
      on_select-Collected s c m signed now k
  dispatch-Collected MessageType.lock c bts m signed now read k =
      on_lock-Collected s c m signed now k
  dispatch-Collected MessageType.lock_release c bts m signed now read k =
      release_lock-Collected s c m.lock_release k
  dispatch-Collected MessageType.commit c bts m signed now read k =
      on_commit-Collected c m signed now read k
  dispatch-Collected MessageType.decide c bts m signed now read k =
      >>=-Ensures (Collected s) (verify_decide s c m signed) _
        (λ _ _. restarted _ m.height m.round _ m.state)
  dispatch-Collected MessageType.resync c bts m signed now read k = k
  dispatch-Collected (MessageType.other n) c bts m signed now read k = tt

  -- Whatever bytes arrive.
  pub receive-Collected :
      (c : Consensus) (bts : Bytes) (now : ℕ)
      → Collected s c
      → Ensures (Collected s) (receive s c bts now)
  unfolding receive
  receive-Collected c bts now k =
      >>=-Ensures (Collected s) (decoded (s.lib.unmarshal_signed bts)) _ λ signed e.
        >>=-Ensures (Collected s) (require (signed.version == protocol_version) _) _ λ _ _.
          >>=-Ensures (Collected s) (verify_message s (some signed)) _ λ m _.
            >>=-Ensures (Collected s) (require (accepts s c m signed) _) _ λ _ _.
              dispatch-Collected m.kind c bts m signed now
                (bts, decoded-some (s.lib.unmarshal_signed bts) e) k
