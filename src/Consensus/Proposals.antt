-- ===== src/Consensus/Proposals.antt =====
-- The proposals of consensus.go: maximalLocked, maximalUnconfirmed, Propose, HasProposed.
use Prim.Native.Nat.{Ordering}
use bdls.Base.{List, [], ◌∷◌, ◌++◌, map, none, some, Bool, ◌||◌, ◌==◌, if◌then◌else◌, any_of}
use bdls.Message.{State}
use bdls.Round.{Tuple}
use bdls.Consensus.State.{Consensus, Setup, is_lt}

-- The loop: `if c.stateCompare(maxState, x) < 0 { maxState = x }`.
unfoldable pub max_from : (State → State → Ordering) → State → List State → State
max_from compare best [] = best
max_from compare best (x ∷ xs) = max_from compare (if is_lt (compare best x) then x else best) xs

unfoldable pub maximal : (State → State → Ordering) → List State → State
unfolding max_from
maximal compare [] = none
maximal compare (x ∷ xs) = max_from compare x xs

module _ (s : Setup) where
  -- `maximalLocked`.
  unfoldable pub maximal_locked : Consensus → State
  maximal_locked c = maximal s.state_compare (map (λ (t : Tuple). t.message.state) c.locks)

  -- `maximalUnconfirmed`.
  unfoldable pub maximal_unconfirmed : Consensus → State
  maximal_unconfirmed c = maximal s.state_compare c.unconfirmed

  -- `Propose`.
  unfoldable pub propose : Consensus → State → Consensus
  propose c none = c
  propose c (some b) =
      if any_of (λ u. s.state_hash u == s.state_hash (some b)) c.unconfirmed
      then c
      else record c { unconfirmed = c.unconfirmed ++ some b ∷ [] }

  unfoldable pub propose_all : Consensus → List State → Consensus
  propose_all c [] = c
  propose_all c (st ∷ sts) = propose_all (propose c st) sts

  -- `HasProposed`.
  unfoldable pub has_proposed : Consensus → State → Bool
  has_proposed c st =
      let same = λ (t : Tuple). t.state_hash == s.state_hash st in
      any_of (λ p. any_of same (c.heap p).round_changes) c.rounds
      || (any_of same c.locks || any_of (λ u. s.state_hash u == s.state_hash st) c.unconfirmed)
