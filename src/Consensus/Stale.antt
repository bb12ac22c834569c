-- ===== src/Consensus/Stale.antt =====
-- The <lock> message of consensus.go where the count of the leader is not that of its round any more.
use bdls.Base.{
  ℕ, suc, ◌+◌, ◌≤◌, ◌<◌, ◌≡◌, ◌≢◌, refl, sym, ap, subst, ◌∙◌, List, [], ◌∷◌, ◌++◌, map, Bool, true,
  false, not, ltb, leb, ◌==◌, eq_self, arith, count_if, length, Outcome, ok, >>-eq-ok, >>=-eq-ok,
  require-eq-ok, inl, inr, is_some, u64, Outcome-cases, ok-injective,
}
use bdls.Base.Assoc.{insert, values}
use bdls.Errors.{Error}
use bdls.Message.{State, Message, MessageType, SignedProto}
use bdls.Message.Signing.{PrivateKey, sign}
use bdls.Round.{Round, Stage, Tuple, num_round_changes, signed_round_changes}
use bdls.Consensus.State.{Consensus, Setup, current, quorum, set_round}
use bdls.Consensus.Timing.{is_zero}
use bdls.Consensus.Rounds.{round_leader}
use bdls.Consensus.Checks.{collect, signer_of, votes}
use bdls.Consensus.Send.{next_message, broadcast, seal, broadcast_lock}
use bdls.Consensus.Verify.{verify_lock, lock_proof}
use bdls.Consensus.Update.{lock_proposed, on_leader, update_lock, tick_in, tick}

insert-length : (k : ℕ) (v : State) (m : List (ℕ × State)) → length (insert k v m) ≤ length m + 1
unfolding insert
insert-length k v [] = omega arith
insert-length k v ((j, w) ∷ m) = ground (arith, insert-length k v m)

count_values-length : (p : State → Bool) (m : List (ℕ × State)) → count_if p (values m) ≤ length m
count_values-length p [] = omega arith
count_values-length p ((j, w) ∷ m) = ground (arith, count_values-length p m)

-- The loop over the proofs makes at most one entry of each.
collect-length :
    (check : SignedProto → Outcome State) (signer : SignedProto → ℕ) (ps : List SignedProto)
    (acc rcs : List (ℕ × State))
    → collect check signer ps acc ≡ ok rcs
    → length rcs ≤ length acc + length ps
unfolding collect
collect-length check signer [] acc rcs h =
    omega (arith, ap (λ (xs : List (ℕ × State)). length xs) (ok-injective h))
collect-length check signer (p ∷ ps) acc rcs h = elim (Outcome-cases (check p)) [
  | inl (st, q) ↦ omega (
    arith,
    collect-length check signer ps (insert (signer p) st acc) rcs (rw (q, collect) at h),
    insert-length (signer p) st acc,
  )
  | inr (inl (x, q)) ↦ absurd (cc (rw (q, collect) at h))
  | inr (inr q) ↦ absurd (cc (rw (q, collect) at h))
]

length-map {ℓ κ} :
    {A : Type ℓ} {B : Type κ} (f : A → B) (xs : List A) → length (map f xs) ≡ length xs
length-map f [] = refl
length-map f (x ∷ xs) = ap (λ (n : ℕ). suc n) (length-map f xs)

length-signed_round_changes : (r : Round) → length (signed_round_changes r) ≡ num_round_changes r
unfolding signed_round_changes
length-signed_round_changes r = length-map (λ (t : Tuple). t.signed) r.round_changes

too_few {ℓ} :
    {A : Type ℓ} (votes wanted entries proofs : ℕ)
    → not (ltb votes wanted) ≡ true
    → entries ≤ 0 + proofs
    → votes ≤ entries
    → proofs < wanted
    → A
too_few votes wanted entries proofs reached bound counted few =
    absurd (ground (arith, reached, bound, counted, few))

module _ (s : Setup) where
  -- With fewer than 2t + 1 proofs a <lock> message is refused.
  verify_lock-few :
      (c : Consensus) (m : Message) (signed : SignedProto)
      → length m.proof < quorum s
      → verify_lock s c m signed ≢ ok tt
  unfolding verify_lock
  verify_lock-few c m signed few h =
      let (height, h1) =
        >>-eq-ok (m.height == u64 (c.latest_height + 1)) Error.lock_height_mismatch _ h in
      let (round, h2) =
        >>-eq-ok (not (ltb m.round (current c).round_number)) Error.lock_round_lower _ h1 in
      let (filled, h3) = >>-eq-ok (is_some m.state) Error.lock_empty_state _ h2 in
      let (valid, h4) = >>-eq-ok (s.state_validate m.state) Error.lock_state_validation _ h3 in
      let (leader, found, h5) = >>=-eq-ok (round_leader s m.round) _ h4 in
      let (by_leader, h6) =
        >>-eq-ok (signer_of s signed == leader) Error.lock_not_signed_by_leader _ h5 in
      let (rcs, collected, h7) =
        >>=-eq-ok (collect (lock_proof s m) (signer_of s) m.proof []) _ h6 in
      let bound = collect-length (lock_proof s m) (signer_of s) m.proof [] rcs collected in
      let counted = count_values-length (λ st. s.state_hash st == s.state_hash m.state) rcs in
      too_few (votes s m.state rcs) (quorum s) (length rcs) (length m.proof) (require-eq-ok _ _ h7)
        bound counted few

module _ (s : Setup) where
  -- The round of the leader once it has locked what it has counted, and the <lock> message for it.
  abbrev pub with_lock : Consensus → Consensus
  with_lock c =
      let r = current c in
      set_round c c.current_round (record r {
        locked_state = r.max_proposed_state;
        locked_state_hash = s.state_hash r.max_proposed_state;
      })

  abbrev pub lock_message : Consensus → Message
  lock_message c = record (next_message c MessageType.lock) {
    state = (current c).locked_state;
    proof = signed_round_changes (current c);
  }

  same_changes :
      (c : Consensus) → num_round_changes (current (with_lock c)) ≡ num_round_changes (current c)
  same_changes c = rw (eq_self c.current_round) refl

  locked-proofs :
      (c : Consensus) → length (lock_message (with_lock c)).proof ≡ num_round_changes (current c)
  locked-proofs c = length-signed_round_changes (current (with_lock c)) ∙ same_changes c

  sends-lock :
      (c : Consensus) (now : ℕ)
      → (lock_proposed s c now).loopback
        ≡ c.loopback
          ++ s.lib.marshal_signed (sign s.lib c.rand (lock_message (with_lock c)) s.private_key)
            ∷ []
  unfolding lock_proposed broadcast_lock broadcast seal
  sends-lock c now = refl

  ticks-lock :
      (c : Consensus) (now : ℕ)
      → (current c).stage ≡ Stage.lock
      → is_zero c.lock_timeout ≡ false
      → round_leader s (current c).round_number ≡ ok s.identity
      → quorum s ≤ (current c).max_proposed_count
      → tick s c now ≡ ok (lock_proposed s c now)
  unfolding tick tick_in update_lock on_leader
  ticks-lock c now at set leads counted =
      let full : leb (quorum s) (current c).max_proposed_count ≡ true = ground (arith, counted) in
      rw (at, set, leads, eq_self s.identity, full) refl

  -- If a leader, in the lock stage with its timeout set, has counted 2t + 1 equal proposals, but its
  -- round holds less than 2t + 1 <roundchange> messages now, as when signers have gone on to a higher
  -- round: the next tick takes it to the commit stage and sends a <lock> message, and every
  -- participant refuses that message, whatever its own state, the leader too.
  pub tick-refused :
      (c : Consensus) (now : ℕ) (identity : ℕ) (key : PrivateKey) (other : Consensus)
      (signed : SignedProto)
      → (current c).stage ≡ Stage.lock
      → is_zero c.lock_timeout ≡ false
      → round_leader s (current c).round_number ≡ ok s.identity
      → quorum s ≤ (current c).max_proposed_count
      → num_round_changes (current c) < quorum s
      → (tick s c now ≡ ok (lock_proposed s c now))
        × ((current (lock_proposed s c now)).stage ≡ Stage.commit)
        × ((lock_proposed s c now).loopback
            ≡ c.loopback
              ++ s.lib.marshal_signed (sign s.lib c.rand (lock_message (with_lock c)) s.private_key)
                ∷ [])
        × (verify_lock
              (record s { identity = identity; private_key = key })
              other
              (lock_message (with_lock c))
              signed
            ≢ ok tt)
  unfolding lock_proposed broadcast_lock broadcast
  tick-refused c now identity key other signed at set leads counted few =
      let t = record s { identity = identity; private_key = key } in
      (
        ticks-lock c now at set leads counted,
        rw (eq_self c.current_round) refl,
        sends-lock c now,
        verify_lock-few t other (lock_message (with_lock c)) signed
            (subst (λ n. n < quorum s) (sym (locked-proofs c)) few),
      )
