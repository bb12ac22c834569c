-- ===== src/Consensus/Neighbours/Ticking.antt =====
-- The peers of the object of consensus.go under Update and the queue of messages to oneself.
use bdls.Base.{
  ℕ, zero, suc, ◌≡◌, refl, sym, ap, ◌∙◌, List, [], ◌∷◌, Option, none, some, leb, ◌==◌, ◌||◌, length,
  Outcome, ok, err, panic, Ensures, >>=-Ensures, if_cases,
}
use mathlib.Core.Option.{some-injective}
use bdls.Message.{Bytes}
use bdls.Round.{Stage, num_round_changes, round_change_states}
use bdls.Consensus.State.{Consensus, Setup, quorum, current}
use bdls.Consensus.Timing.{after, is_zero}
use bdls.Consensus.Rounds.{round_leader}
use bdls.Consensus.Send.{broadcast, broadcast_round_change, broadcast_lock, broadcast_select}
use bdls.Consensus.Receive.{receive, settle, drain_from, drain_one, drain, receive_message}
use bdls.Consensus.Update.{
  update_round_changing, lock_proposed, select_proposed, on_leader, update_lock, update_commit,
  update_lock_release, tick_in, tick, update,
}
use bdls.Consensus.Neighbours.{
  SamePeers, switch_round-peers, round_change-peers, resync-peers, lock_release-peers,
  propose_all-peers,
}
use bdls.Consensus.Neighbours.Handling.{receive-peers}

module _ (s : Setup) where
  update_round_changing-peers :
      (c : Consensus) (now : ℕ) → Ensures (SamePeers c) (update_round_changing s c now)
  unfolding update_round_changing
  update_round_changing-peers c now =
      if_cases (Ensures (SamePeers c)) (is_zero c.rc_timeout) panic _ (λ _. tt)
        (λ _.
          if_cases (Ensures (SamePeers c)) (after now c.rc_timeout) _ (ok c)
            (λ _. resync-peers s (broadcast_round_change s c) ∙ round_change-peers s c) (λ _. refl))

  on_leader-peers : (c : Consensus) (leader now : ℕ) → SamePeers c (on_leader s c leader now)
  unfolding on_leader lock_proposed select_proposed broadcast_lock broadcast_select broadcast
  on_leader-peers c leader now =
      if_cases (SamePeers c) (leader == s.identity) _ _
        (λ _.
          if_cases (SamePeers c) (leb (quorum s) (current c).max_proposed_count)
            (lock_proposed s c now) _ (λ _. refl)
            (λ _.
              if_cases (SamePeers c)
                (num_round_changes (current c) == length s.participants || after now c.lock_timeout)
                (select_proposed s c now) c
                (λ _.
                  lock_release-peers s _ ∙ propose_all-peers s c (round_change_states (current c)))
                (λ _. refl)))
        (λ _. if_cases (SamePeers c) (after now c.lock_timeout) _ c (λ _. refl) (λ _. refl))

  update_lock-peers : (c : Consensus) (now : ℕ) → Ensures (SamePeers c) (update_lock s c now)
  unfolding update_lock
  update_lock-peers c now =
      if_cases (Ensures (SamePeers c)) (is_zero c.lock_timeout) panic _ (λ _. tt)
        (λ _.
          >>=-Ensures (SamePeers c) (round_leader s (current c).round_number) _
            (λ leader _. on_leader-peers c leader now))

  update_commit-peers : (c : Consensus) (now : ℕ) → Ensures (SamePeers c) (update_commit s c now)
  unfolding update_commit
  update_commit-peers c now =
      if_cases (Ensures (SamePeers c)) (is_zero c.commit_timeout) panic _ (λ _. tt)
        (λ _.
          if_cases (Ensures (SamePeers c)) (after now c.commit_timeout) _ (ok c)
            (λ _. lock_release-peers s _) (λ _. refl))

  update_lock_release-peers :
      (c : Consensus) (now : ℕ) → Ensures (SamePeers c) (update_lock_release s c now)
  unfolding update_lock_release
  update_lock_release-peers c now =
      if_cases (Ensures (SamePeers c)) (is_zero c.lock_release_timeout) panic _ (λ _. tt)
        (λ _.
          if_cases (Ensures (SamePeers c)) (after now c.lock_release_timeout) _ (ok c)
            (λ _. round_change-peers s _ ∙ switch_round-peers _ _) (λ _. refl))

  tick_in-peers :
      (st : Stage) (c : Consensus) (now : ℕ) → Ensures (SamePeers c) (tick_in s st c now)
  unfolding tick_in
  tick_in-peers Stage.round_changing c now = update_round_changing-peers c now
  tick_in-peers Stage.lock c now = update_lock-peers c now
  tick_in-peers Stage.commit c now = update_commit-peers c now
  tick_in-peers Stage.lock_release c now = update_lock_release-peers c now

  settle-peers :
      (c : Consensus) (o : Outcome Consensus) {d : Consensus}
      → Ensures (SamePeers c) o
      → settle s c o ≡ some d
      → SamePeers c d
  settle-peers c (ok c') h e = ap (λ (x : Consensus). x.peers) (sym (some-injective _ _ e)) ∙ h
  settle-peers c (err x) h e = ap (λ (x : Consensus). x.peers) (sym (some-injective _ _ e))
  settle-peers c panic h e = cc

  drain_one-peers :
      (c : Consensus) (now : ℕ) {d : Consensus} → drain_one s c now ≡ some d → SamePeers c d
  unfolding drain_one
  drain_one-peers c now e = from c.loopback e
    where
      from :
          (queue : List Bytes) {d : Consensus} → drain_from s c now queue ≡ some d → SamePeers c d
      from [] h = ap (λ (x : Consensus). x.peers) (sym (some-injective _ _ h))
      from (bts ∷ rest) h =
          let c1 = record c { loopback = rest } in
          settle-peers c1 (receive s c1 bts now) (receive-peers s c1 bts now) h

  -- What follows a call that gives a state.
  then-peers :
      (c : Consensus) (o : Option Consensus) (next : Consensus → Option Consensus) {d : Consensus}
      → ((e : Consensus) → o ≡ some e → SamePeers c e)
      → ((e f : Consensus) → next e ≡ some f → SamePeers e f)
      → (elim o [ none ↦ none | some e ↦ next e ]) ≡ some d
      → SamePeers c d
  then-peers c none next h k e = cc
  then-peers c (some b) next h k e = k b _ e ∙ h b refl

  drain-peers :
      (fuel : ℕ) (c : Consensus) (now : ℕ) (d : Consensus)
      → drain s fuel c now ≡ some d
      → SamePeers c d
  unfolding drain
  drain-peers zero c now d e = ap (λ (x : Consensus). x.peers) (sym (some-injective _ _ e))
  drain-peers (suc fuel) c now d e = by_queue (λ c' d' k. drain-peers fuel c' now d' k) c.loopback e
    where
      by_queue :
          ((c' d' : Consensus) → drain s fuel c' now ≡ some d' → SamePeers c' d')
          → (queue : List Bytes)
          → (elim queue [
            | [] ↦ some c
            | _ ∷ _ ↦ elim (drain_one s c now) [ none ↦ none | some c' ↦ drain s fuel c' now ]
          ])
            ≡ some d
          → SamePeers c d
      by_queue ih [] h = ap (λ (x : Consensus). x.peers) (sym (some-injective _ _ h))
      by_queue ih (bts ∷ rest) h =
          then-peers c (drain_one s c now) (λ c'. drain s fuel c' now)
            (λ c' k. drain_one-peers c now k) ih h

  -- A message leaves the peers of the object as they are.
  pub receive_message-peers :
      (fuel : ℕ) (c : Consensus) (bts : Bytes) (now : ℕ) (d : Consensus)
      → receive_message s fuel c bts now ≡ some d
      → SamePeers c d
  unfolding receive_message
  receive_message-peers fuel c bts now d e =
      then-peers c (settle s c (receive s c bts now)) (λ c'. drain s fuel c' now)
        (λ c' k. settle-peers c (receive s c bts now) (receive-peers s c bts now) k)
        (λ c' d' k. drain-peers fuel c' now d' k) e

  ticked-peers :
      (fuel : ℕ) (c : Consensus) (now : ℕ) (o : Outcome Consensus) (d : Consensus)
      → Ensures (SamePeers c) o
      → (elim o [ ok c' ↦ drain s fuel c' now | _ ↦ none ]) ≡ some d
      → SamePeers c d
  ticked-peers fuel c now (ok c') d h e = drain-peers fuel c' now d e ∙ h
  ticked-peers fuel c now (err x) d h e = cc
  ticked-peers fuel c now panic d h e = cc

  -- So does a tick.
  pub update-peers :
      (fuel : ℕ) (c : Consensus) (now : ℕ) (d : Consensus)
      → update s fuel c now ≡ some d
      → SamePeers c d
  unfolding update tick
  update-peers fuel c now d e =
      ticked-peers fuel c now (tick s c now) d (tick_in-peers (current c).stage c now) e
