-- ===== src/Consensus/Votes/Handling.antt =====
-- The cases of receiveMessage in consensus.go, and the messages in the rounds.
use bdls.Base.{
  ℕ, ◌+◌, ◌≡◌, refl, sym, ap, Option, none, some, is_some, true, ◌&&◌, ◌==◌, ==→eq, leb, if_cases,
  ok, require, >>-eq-ok, Ensures, >>=-Ensures, u64,
}
use bdls.Errors.{Error}
use bdls.Message.{Bytes, State, Message, MessageType, SignedProto, protocol_version}
use bdls.Round.{add_commit, num_committed}
use bdls.Consensus.State.{Consensus, Setup, current, quorum, set_round}
use bdls.Consensus.Rounds.{height_sync, round_leader}
use bdls.Consensus.Checks.{is_round_change, is_commit, in_commit, decoded, verify_message}
use bdls.Consensus.Send.{broadcast_round_change, broadcast_decide, broadcast, seal, propagate}
use bdls.Consensus.Verify.{
  verify_lock, verify_lock_release, verify_select, verify_commit, verify_decide,
}
use bdls.Consensus.Handlers.{
  follow_round, on_select, enter_locked, on_lock, release_lock, on_lock_release, decide,
  add_committed, on_commit, on_decide, on_resync,
}
use bdls.Consensus.Receive.{accepts, dispatch, receive}
use bdls.Consensus.InOrder.{InOrder}
use bdls.Consensus.Certificates.{verify_signed-eq-ok}
use bdls.Consensus.Votes.{AllKept, write-Kept, add_commit-Kept}
use bdls.Consensus.Votes.Sending.{
  height_sync-Kept, broadcast_round_change-Kept, follow_round-Kept, enter_selected-Kept,
  enter_locked-Kept, send_commit-Kept,
}
use bdls.Consensus.Votes.Scanning.{Authentic, recorded-Genuine, on_round_change-Kept}

module _ (s : Setup) where
  restart-Kept :
      (c : Consensus) (height round timeout : ℕ) (st : State)
      → AllKept s c
      → AllKept s (
          broadcast_round_change s
            (record (height_sync c height round st) { rc_timeout = timeout }))
  restart-Kept c height round timeout st k =
      broadcast_round_change-Kept s
        (record (height_sync c height round st) { rc_timeout = timeout })
        (height_sync-Kept s c height round st k)

  decide-Kept : (c : Consensus) (now : ℕ) → AllKept s c → AllKept s (decide s c now)
  unfolding decide broadcast_decide broadcast seal
  decide-Kept c now k =
      let (c1, sp) = broadcast_decide s c in
      restart-Kept (record c1 { latest_proof = some sp }) (u64 (c1.latest_height + 1))
        (current c1).round_number _ (current c1).locked_state k

  verify_commit-round :
      (c : Consensus) (m : Message) {u : Unit {0}}
      → verify_commit s c m ≡ ok u
      → (current c).round_number ≡ m.round
  unfolding verify_commit
  verify_commit-round c m h =
      let (_, h1) = >>-eq-ok (in_commit (current c).stage) Error.commit_status _ h in
      let (_, h2) = >>-eq-ok (is_some m.state) Error.commit_empty_state _ h1 in
      let (_, h3) = >>-eq-ok (s.state_validate m.state) Error.commit_state_validation _ h2 in
      let (_, h4) =
        >>-eq-ok (m.height == u64 (c.latest_height + 1)) Error.commit_height_mismatch _ h3 in
      let (same, _) =
        >>-eq-ok ((current c).round_number == m.round) Error.commit_round_mismatch
          (require (s.state_hash m.state == (current c).locked_state_hash)
            Error.commit_state_mismatch)
          h4 in
      ==→eq _ _ same

  on_commit-Kept :
      (c : Consensus) (m : Message) (signed : SignedProto) (now : ℕ)
      → AllKept s c
      → Authentic s m signed
      → is_commit m.kind ≡ true
      → Ensures (AllKept s) (on_commit s c m signed now)
  unfolding on_commit add_committed
  on_commit-Kept c m signed now k a kind =
      >>=-Ensures (AllKept s) (round_leader s m.round) _ λ leader _.
        if_cases (Ensures (AllKept s)) (leader == s.identity) _ _
          (λ _. >>=-Ensures (AllKept s) (verify_commit s c m) _ λ _ checked.
            let (r, added) = add_commit s.state_hash (current c) signed m in
            let c1 = set_round c c.current_round r in
            let k1 = write-Kept s c.heap c.current_round r k (
              add_commit-Kept s (current c) signed m (k c.current_round) (
                recorded-Genuine s is_commit _ m signed a kind
                  (sym (verify_commit-round c m checked)))) in
            if_cases (AllKept s) (added && leb (quorum s) (num_committed r)) _ _
              (λ _. decide-Kept c1 now k1) (λ _. k1))
          (λ _. k)

  on_decide-Kept :
      (c : Consensus) (bts : Bytes) (m : Message) (signed : SignedProto) (now : ℕ)
      → AllKept s c
      → Ensures (AllKept s) (on_decide s c bts m signed now)
  unfolding on_decide propagate
  on_decide-Kept c bts m signed now k =
      >>=-Ensures (AllKept s) (verify_decide s c m signed) _ λ _ _.
        restart-Kept (propagate (record c { latest_proof = some signed }) bts) m.height m.round _
          m.state k

  on_lock-Kept :
      (c : Consensus) (m : Message) (signed : SignedProto) (now : ℕ)
      → AllKept s c
      → Ensures (AllKept s) (on_lock s c m signed now)
  unfolding on_lock
  on_lock-Kept c m signed now k = >>=-Ensures (AllKept s) (verify_lock s c m signed) _ λ _ _.
      let c1 = follow_round s c m.round signed in
      send_commit-Kept s (enter_locked s c1 m signed now) m
        (enter_locked-Kept s c1 m signed now (follow_round-Kept s c m.round signed k))

  on_select-Kept :
      (c : Consensus) (m : Message) (signed : SignedProto) (now : ℕ)
      → AllKept s c
      → Ensures (AllKept s) (on_select s c m signed now)
  unfolding on_select
  on_select-Kept c m signed now k = >>=-Ensures (AllKept s) (verify_select s c m signed) _ λ _ _.
      enter_selected-Kept s (follow_round s c m.round signed) m now
        (follow_round-Kept s c m.round signed k)

  on_lock_release-Kept :
      (c : Consensus) (m : Message) → AllKept s c → Ensures (AllKept s) (on_lock_release s c m)
  unfolding on_lock_release release_lock
  on_lock_release-Kept c m k = released m.lock_release
    where
      released : (o : Option SignedProto) → Ensures (AllKept s) (release_lock s c o)
      released none = >>=-Ensures (AllKept s) (verify_lock_release s c none) _ (λ _ _. k)
      released (some signed) =
          >>=-Ensures (AllKept s) (verify_lock_release s c (some signed)) _ (λ _ _. k)

  dispatch-Kept :
      (kind : MessageType) (c : Consensus) (bts : Bytes) (m : Message) (signed : SignedProto)
      (now : ℕ)
      → kind ≡ m.kind
      → InOrder c
      → AllKept s c
      → Authentic s m signed
      → Ensures (AllKept s) (dispatch s kind c bts m signed now)
  unfolding dispatch on_resync
  dispatch-Kept MessageType.nop c bts m signed now e i k a = k
  dispatch-Kept MessageType.round_change c bts m signed now e i k a =
      on_round_change-Kept s c m signed now i k a (ap is_round_change (sym e))
  dispatch-Kept MessageType.select c bts m signed now e i k a = on_select-Kept c m signed now k
  dispatch-Kept MessageType.lock c bts m signed now e i k a = on_lock-Kept c m signed now k
  dispatch-Kept MessageType.lock_release c bts m signed now e i k a = on_lock_release-Kept c m k
  dispatch-Kept MessageType.commit c bts m signed now e i k a =
      on_commit-Kept c m signed now k a (ap is_commit (sym e))
  dispatch-Kept MessageType.decide c bts m signed now e i k a = on_decide-Kept c bts m signed now k
  dispatch-Kept MessageType.resync c bts m signed now e i k a = k
  dispatch-Kept (MessageType.other n) c bts m signed now e i k a = tt

  -- Whatever bytes arrive.
  pub receive-Kept :
      (c : Consensus) (bts : Bytes) (now : ℕ)
      → InOrder c
      → AllKept s c
      → Ensures (AllKept s) (receive s c bts now)
  unfolding receive verify_message
  receive-Kept c bts now i k =
      >>=-Ensures (AllKept s) (decoded (s.lib.unmarshal_signed bts)) _ λ signed _.
        >>=-Ensures (AllKept s) (require (signed.version == protocol_version) _) _ λ _ _.
          >>=-Ensures (AllKept s) (verify_message s (some signed)) _ λ m verified.
            >>=-Ensures (AllKept s) (require (accepts s c m signed) _) _ λ _ _.
              dispatch-Kept m.kind c bts m signed now refl i k
                (verify_signed-eq-ok s signed verified)
