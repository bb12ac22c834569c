-- ===== src/Consensus/Locked.antt =====
-- The case MessageType_Lock of receiveMessage in consensus.go: the way to the round of the message.
pub mod Committing
pub mod Entering
use bdls.Base.{
  ℕ, ◌+◌, ◌<◌, ◌≤◌, ◌≡◌, ◌≢◌, refl, sym, ap, subst, ◌∙◌, ◌⊎◌, inl, inr, List, [], ◌∷◌, ◌++◌, Bool,
  true, false, not, arith, some, ltb, ◌==◌, ==→eq, eq_self, if◌then◌else◌, if_cases, Bool-cases,
  keep_if, count_if, In, ok, ok-injective, >>=-eq-ok, >>-eq-ok, not-ltb,
}
use bdls.Message.{Bytes, Message, SignedProto}
use bdls.Message.Signing.{sign}
use bdls.Round.{Round, Stage, Tuple, rank, new_round, hash_count}
use bdls.Consensus.State.{Consensus, Setup, Output, Peer, callback, current, write}
use bdls.Consensus.Timing.{commit_duration, time_add}
use bdls.Consensus.Rounds.{Search, search_round, keep, get_round, switch_round, round_leader}
use bdls.Consensus.Verify.{verify_lock}
use bdls.Consensus.Agreement.{verify_lock-Certificate}
use bdls.Consensus.Send.{
  broadcast, send_to, seal, to_all, to_leader, commit_message, deliver_commit, send_commit,
  mark_committed,
}
use bdls.Consensus.Locks.{replace_lock}
use bdls.Consensus.Handlers.{follow_round, enter_locked, on_lock}

-- The search ends at the fresh reference or at a round of the number.
Found : (ℕ → Round) → ℕ → ℕ → Search → Type 0
Found heap fresh idx f =
    ((f.is_new ≡ true) × (f.ref ≡ fresh)) ⊎ ((f.is_new ≡ false) × ((heap f.ref).round_number ≡ idx))

keep-Found :
    (heap : ℕ → Round) (fresh idx : ℕ) (purge : Bool) (p : ℕ) (f : Search)
    → Found heap fresh idx f
    → Found heap fresh idx (keep purge p f)
unfolding Found
keep-Found heap fresh idx true p f h = h
keep-Found heap fresh idx false p f h = h

search_round-Found :
    (heap : ℕ → Round) (fresh idx : ℕ) (purge : Bool) (ps : List ℕ)
    → Found heap fresh idx (search_round heap fresh idx purge ps)
unfolding search_round Found
search_round-Found heap fresh idx purge [] = inl (refl, refl)
search_round-Found heap fresh idx purge (p ∷ ps) =
    if_cases (Found heap fresh idx) (ltb (heap p).round_number idx) _ _
      (λ lower. keep-Found heap fresh idx purge p _ (search_round-Found heap fresh idx purge ps))
      (λ not_lower.
        if_cases (Found heap fresh idx) (ltb idx (heap p).round_number) _ _
          (λ higher. inl (refl, refl))
          (λ not_higher. inr (refl, ground (arith, not_lower, not_higher))))

-- What a change of the round leaves as it is.
pub record Apart (c d : Consensus) : Type 0 where
  pub outputs : d.outputs ≡ c.outputs
  pub loopback : d.loopback ≡ c.loopback
  pub peers : d.peers ≡ c.peers
  pub rand : d.rand ≡ c.rand
  pub locks : d.locks ≡ c.locks
  pub latency : d.latency ≡ c.latency
  pub commit_timeout : d.commit_timeout ≡ c.commit_timeout

Apart-refl : (c : Consensus) → Apart c c
Apart-refl c = record {
  outputs = refl;
  loopback = refl;
  peers = refl;
  rand = refl;
  locks = refl;
  latency = refl;
  commit_timeout = refl;
}

switch_round-Switched :
    (c : Consensus) (round : ℕ)
    → Apart c (switch_round c round) × ((current (switch_round c round)).round_number ≡ round)
unfolding switch_round get_round Found new_round
switch_round-Switched c round =
    let found = search_round c.heap c.next_ref round true c.rounds in
    elim (search_round-Found c.heap c.next_ref round true c.rounds) [
      | inl (made, at_fresh) ↦ rw made (
        record {
          outputs = refl;
          loopback = refl;
          peers = refl;
          rand = refl;
          locks = refl;
          latency = refl;
          commit_timeout = refl;
        },
        rw (at_fresh, eq_self c.next_ref) refl,
      )
      | inr (old, hit) ↦ rw old (
        record {
          outputs = refl;
          loopback = refl;
          peers = refl;
          rand = refl;
          locks = refl;
          latency = refl;
          commit_timeout = refl;
        },
        hit,
      )
    ]

module _ (s : Setup) where
  pub follow_round-Followed :
      (c : Consensus) (round : ℕ) (signed : SignedProto)
      → (current c).round_number ≤ round
      → Apart c (follow_round s c round signed)
        × ((current (follow_round s c round signed)).round_number ≡ round)
  unfolding follow_round
  follow_round-Followed c round signed le =
      if_cases (λ (d : Consensus). Apart c d × ((current d).round_number ≡ round))
        (ltb (current c).round_number round) _ _
        (λ up.
          let (a, hit) = switch_round-Switched c round in
          (
            record {
              outputs = a.outputs;
              loopback = a.loopback;
              peers = a.peers;
              rand = a.rand;
              locks = a.locks;
              latency = a.latency;
              commit_timeout = a.commit_timeout;
            },
            hit,
          ))
        (λ same. (Apart-refl c, ground (arith, same, le)))
