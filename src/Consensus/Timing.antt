-- ===== src/Consensus/Timing.antt =====
-- The timeouts of consensus.go. A time.Duration is the bit pattern of its int64, a time.Time a
-- number of nanoseconds of which 0 is the zero time.
use bdls.Base.{
  ℕ, ◌+◌, ◌-◌, ◌*◌, ◌^◌, Bool, true, false, ◌&&◌, ltb, ◌==◌, if◌then◌else◌, u64, word, sign_bit,
}

-- DefaultConsensusLatency: 300 ms.
abbrev pub default_consensus_latency : ℕ
default_consensus_latency = 300_000_000

-- MaxConsensusLatency: 10 s.
abbrev pub max_consensus_latency : ℕ
max_consensus_latency = 10_000_000_000

-- `1 << round` as an int64.
unfoldable pub shift_one : ℕ → ℕ
shift_one round = elim (ltb round 64) [ true ↦ 2 ^ round | false ↦ 0 ]

-- `if d > MaxConsensusLatency { d = MaxConsensusLatency }`, a signed comparison.
unfoldable pub cap : ℕ → ℕ
cap d = if ltb d sign_bit && ltb max_consensus_latency d then max_consensus_latency else d

-- `k * c.latency * (1 << round)`, capped.
unfoldable pub scaled : ℕ → ℕ → ℕ → ℕ
unfolding cap
scaled k latency round = cap (u64 (u64 (k * latency) * shift_one round))

unfoldable pub round_change_duration : ℕ → ℕ → ℕ
round_change_duration latency round = scaled 2 latency round

unfoldable pub collect_duration : ℕ → ℕ → ℕ
collect_duration latency round = scaled 2 latency round

unfoldable pub lock_duration : ℕ → ℕ → ℕ
lock_duration latency round = scaled 4 latency round

unfoldable pub commit_duration : ℕ → ℕ → ℕ
commit_duration latency round = scaled 2 latency round

unfoldable pub lock_release_duration : ℕ → ℕ → ℕ
lock_release_duration latency round = scaled 2 latency round

-- `t.Add(d)`: a pattern from `sign_bit` on is a negative duration.
unfoldable pub time_add : ℕ → ℕ → ℕ
time_add t d = if ltb d sign_bit then t + d else t + d - word

-- `now.After(t)`.
abbrev pub after : ℕ → ℕ → Bool
after now t = ltb t now

-- `t.IsZero()`.
abbrev pub is_zero : ℕ → Bool
is_zero t = t == 0
