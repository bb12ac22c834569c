-- ===== src/Consensus/Locks.antt =====
-- The locks of consensus.go: lockRelease, and what <lock> and <lock-release> messages do to them.
use bdls.Base.{ℕ, List, [], ◌∷◌, ◌++◌, not, ltb, ◌==◌, if◌then◌else◌, length, keep_if}
use bdls.Round.{Tuple}
use bdls.Consensus.State.{Consensus, Setup}
use bdls.Consensus.Send.{broadcast_lock_release}

-- `if max.Message.Round < t.Message.Round { max = t }`.
unfoldable pub higher : Tuple → Tuple → Tuple
higher best t = if ltb best.message.round t.message.round then t else best

-- The loop of `lockRelease`: the first lock with the highest round.
unfoldable pub highest_lock : Tuple → List Tuple → Tuple
unfolding higher
highest_lock best [] = best
highest_lock best (t ∷ ts) = highest_lock (higher best t) ts

-- <lock>: locks on the same state give way to the new one.
unfoldable pub replace_lock : Tuple → List Tuple → List Tuple
replace_lock new locks = keep_if (λ t. not (t.state_hash == new.state_hash)) locks ++ new ∷ []

-- The locks of a <lock-release> message that are not of a lower round.
abbrev pub not_lower : ℕ → List Tuple → List Tuple
not_lower round = keep_if (λ (u : Tuple). not (ltb u.message.round round))

-- "Some locks have been removed if o is smaller than original locks length, then we keep this lock."
unfoldable pub keep_released : Tuple → List Tuple → List Tuple → List Tuple
keep_released new kept locks = if ltb (length kept) (length locks) then kept ++ new ∷ [] else locks

-- <lock-release>: locks of a lower round give way to the released one, which is kept if there
-- were any, or if there was no lock at all.
unfoldable pub release_into : Tuple → List Tuple → List Tuple
unfolding keep_released
release_into new [] = new ∷ []
release_into new (t ∷ ts) = keep_released new (not_lower new.message.round (t ∷ ts)) (t ∷ ts)

module _ (s : Setup) where
  -- What `lockRelease` does with the locks that there are.
  unfoldable pub release_locks : Consensus → List Tuple → Consensus
  unfolding highest_lock
  release_locks c [] = c
  release_locks c (t ∷ ts) =
      let max = highest_lock t ts in
      broadcast_lock_release s (record c { locks = max ∷ [] }) max.signed

  -- `lockRelease`.
  unfoldable pub lock_release : Consensus → Consensus
  unfolding release_locks
  lock_release c = release_locks c c.locks
