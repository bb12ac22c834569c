-- ===== src/Consensus/Leaders.antt =====
-- Who leads a round: roundLeader of consensus.go.
use bdls.Base.{
  ℕ, zero, suc, ◌+◌, ◌-◌, ◌%◌, ◌≤◌, ◌<◌, ◌≡◌, ◌≢◌, refl, ◌∙◌, List, [], ◌∷◌, none, some, true,
  arith, word, sign_bit, length, get_elem?, has, ok, panic, eq_self,
}
use bdls.Consensus.State.{Setup}
use bdls.Consensus.Rounds.{leader_of, round_leader}
use bdls.Consensus.Checks.{is_participant}

get_elem?-has :
    (ps : List ℕ) (i : ℕ) → i < length ps → (p : ℕ) × (get_elem? ps i ≡ some p) × (has p ps ≡ true)
get_elem?-has [] i h = elim h [ ]
get_elem?-has (q ∷ ps) zero h = (q, refl, ground (arith, eq_self q))
get_elem?-has (q ∷ ps) (suc i) h =
    let (p, found, member) = get_elem?-has ps i (omega arith) in (p, found, ground (arith, member))

module _ (s : Setup) (free : s.fixed_leader ≡ none)
    (some_participant : 0 < length s.participants) where
  rotates :
      (round : ℕ)
      → round + length s.participants < sign_bit
      → round_leader s (round + length s.participants) ≡ round_leader s round
  unfolding round_leader leader_of
  rotates round h = ground (arith, native.Mathlib.Nat.add-mod_right round (length s.participants))

  -- Without a fixed leader, and with some participant: below 2 ^ 63 each round has a leader, the
  -- participant at the round's number modulo their count, and leaders rotate: the round that comes as
  -- many rounds later as there are participants has the same leader, if it is below 2 ^ 63 too.
  pub round_leader-participant :
      (round : ℕ)
      → round < sign_bit
      → (p : ℕ) × (round_leader s round ≡ ok p)
        × (get_elem? s.participants (round % length s.participants) ≡ some p)
        × (is_participant s p ≡ true)
        × (round + length s.participants < sign_bit
            → round_leader s (round + length s.participants) ≡ ok p)
  unfolding round_leader leader_of
  round_leader-participant round h =
      let (p, found, member) =
        get_elem?-has s.participants (round % length s.participants) (omega arith) in
      let leads : round_leader s round ≡ ok p = ground (arith, found) in
      (p, leads, found, member, λ below. rotates round below ∙ leads)

  -- Without a fixed leader, and with some participant: from 2 ^ 63 on a round has a negative number
  -- as an int, and asking for its leader panics unless that number is a multiple of the count of
  -- participants.
  pub round_leader-panics :
      (round : ℕ)
      → sign_bit ≤ round
      → (word - round) % length s.participants ≢ 0
      → round_leader s round ≡ panic
  unfolding round_leader leader_of
  round_leader-panics round h n = ground arith
