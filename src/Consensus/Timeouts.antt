-- ===== src/Consensus/Timeouts.antt =====
-- The durations of consensus.go and their int64 arithmetic.
use Prim.Native.Nat.{min}
use native.Mathlib.Nat.{mod-eq_of_lt, pow-le-pow_right, one-le-pow}
use bdls.Base.{
  ℕ, ◌*◌, ◌^◌, ◌≤◌, ◌<◌, ◌≡◌, inl, inr, ltb, lt→ltb, arith, u64, word, sign_bit, Bool-cases, ltb→lt,
}
use bdls.Consensus.Timing.{
  default_consensus_latency, max_consensus_latency, shift_one, cap, scaled, round_change_duration,
  collect_duration, lock_duration, commit_duration, lock_release_duration, time_add,
}

-- All five durations of a round.
pub record Durations (latency round short long : ℕ) : Type 0 where
  pub round_change : round_change_duration latency round ≡ short
  pub collect : collect_duration latency round ≡ short
  pub lock : lock_duration latency round ≡ long
  pub commit : commit_duration latency round ≡ short
  pub lock_release : lock_release_duration latency round ≡ short

shift_one-eq : (round : ℕ) → round < 64 → shift_one round ≡ 2 ^ round
unfolding shift_one
shift_one-eq round h = ground (arith, lt→ltb round 64 h)

shift_one-zero : (round : ℕ) → 64 ≤ round → shift_one round ≡ 0
unfolding shift_one
shift_one-zero round h = ground arith

cap-min : (d : ℕ) → d < sign_bit → cap d ≡ min max_consensus_latency d
unfolding cap
cap-min d h = ground arith

le_mul : (a p : ℕ) → 0 < a → p ≤ a * p
le_mul a p h = grind arith

-- A product that fits an int64 leaves no room for a shift by 64.
small_shift : (a round : ℕ) → 0 < a → a * 2 ^ round < sign_bit → round < 64
small_shift a round h fits = elim (Bool-cases (ltb round 64)) [
  | inl small ↦ ltb→lt round 64 small
  | inr large ↦
      let wide : 2 ^ 64 ≤ 2 ^ round =
        pow-le-pow_right (omega arith) {i = 64} (ground (arith, large)) in
      let grown : 2 ^ round ≤ a * 2 ^ round = le_mul a (2 ^ round) h in absurd (omega arith)
]

scaled-min :
    (k latency round : ℕ)
    → 0 < k * latency
    → k * latency * 2 ^ round < sign_bit
    → scaled k latency round ≡ min max_consensus_latency (k * latency * 2 ^ round)
unfolding scaled
scaled-min k latency round h fits =
    let shift = shift_one-eq round (small_shift (k * latency) round h fits) in
    let grown : k * latency ≤ k * latency * 2 ^ round =
      let one : 1 ≤ 2 ^ round = one-le-pow round 2 (omega arith) in grind arith in
    let first : u64 (k * latency) ≡ k * latency = mod-eq_of_lt (omega arith) in
    let second : u64 (k * latency * 2 ^ round) ≡ k * latency * 2 ^ round =
      mod-eq_of_lt (omega arith) in
    rw (first, shift, second) (cap-min (k * latency * 2 ^ round) fits)

scaled-zero : (k latency round : ℕ) → 64 ≤ round → scaled k latency round ≡ 0
unfolding scaled cap
scaled-zero k latency round h = rw (shift_one-zero round h) (ground arith)

-- For a latency above 0, and while four times the latency, doubled each round, fits an int64, the
-- timeouts are twice the latency (four times for <lock>) doubled each round, and ten seconds at most.
pub Durations-exact :
    (latency round : ℕ)
    → 0 < latency
    → 4 * latency * 2 ^ round < sign_bit
    → Durations latency round
        (min max_consensus_latency (2 * latency * 2 ^ round))
        (min max_consensus_latency (4 * latency * 2 ^ round))
unfolding round_change_duration collect_duration lock_duration commit_duration lock_release_duration
Durations-exact latency round h fits =
    let short = scaled-min 2 latency round (omega arith) (omega arith) in
    record {
      round_change = short;
      collect = short;
      lock = scaled-min 4 latency round (omega arith) fits;
      commit = short;
      lock_release = short;
    }

-- From round 64 on the shift gives 0, so that every duration is 0 whatever the latency is: the
-- timeouts no longer wait.
pub Durations-vanish : (latency round : ℕ) → 64 ≤ round → Durations latency round 0 0
unfolding round_change_duration collect_duration lock_duration commit_duration lock_release_duration
Durations-vanish latency round h =
    let short = scaled-zero 2 latency round h in
    record {
      round_change = short;
      collect = short;
      lock = scaled-zero 4 latency round h;
      commit = short;
      lock_release = short;
    }

-- With the default latency the sums already turn negative in round 34: a timeout set then is over
-- before it begins.
timeout_in_the_past :
    (now : ℕ) → word < now → time_add now (round_change_duration default_consensus_latency 34) < now
unfolding round_change_duration scaled cap shift_one time_add
timeout_in_the_past now h = omega arith
