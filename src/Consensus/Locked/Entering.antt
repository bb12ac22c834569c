-- ===== src/Consensus/Locked/Entering.antt =====
-- The case MessageType_Lock of receiveMessage in consensus.go: the locks and the stage.
use bdls.Base.{ℕ, ◌<◌, ◌≤◌, ◌≡◌, ◌⊎◌, true, false, ◌==◌, if◌then◌else◌, In}
use bdls.Message.{Message, SignedProto}
use bdls.Round.{Stage, Tuple, rank, hash_count}
use bdls.Consensus.State.{Consensus, Setup, current}
use bdls.Consensus.Timing.{commit_duration, time_add}
use bdls.Consensus.Locks.{replace_lock}
use bdls.Consensus.Locked.Committing.{Delivered}

module _ (s : Setup) where
  -- The tuple that stands for a <lock> message among the locks.
  abbrev pub new_lock : Message → SignedProto → Tuple
  new_lock m signed = record { state_hash = s.state_hash m.state; message = m; signed = signed }

  -- What becomes of the locks and the stage.
  record Entered (c1 : Consensus) (m : Message) (signed : SignedProto) (now : ℕ) (e : Consensus)
      : Type 0 where
    same_outputs : e.outputs ≡ c1.outputs
    same_loopback : e.loopback ≡ c1.loopback
    same_peers : e.peers ≡ c1.peers
    same_rand : e.rand ≡ c1.rand
    same_number : (current e).round_number ≡ (current c1).round_number
    same_sent : (current e).commit_sent ≡ (current c1).commit_sent
    taken :
        ((rank (current c1).stage < rank Stage.commit)
          × ((current e).stage ≡ Stage.commit)
          × (e.locks ≡ replace_lock (new_lock m signed) c1.locks)
          × (e.commit_timeout ≡ time_add now (commit_duration c1.latency m.round)))
        ⊎ ((rank Stage.commit ≤ rank (current c1).stage) × (e ≡ c1))

  -- The participant after a <lock> message, by how it stood in the round of the message.
  pub record Locked (c entered : Consensus) (m : Message) (signed : SignedProto) (now : ℕ)
      (d : Consensus) : Type 0 where
    pub in_round : (current d).round_number ≡ m.round
    pub committed : (current d).commit_sent ≡ true
    pub sent :
        (((current entered).commit_sent ≡ true)
          × (d.outputs ≡ c.outputs)
          × (d.loopback ≡ c.loopback))
        ⊎ (((current entered).commit_sent ≡ false) × Delivered s c m d)
    pub taken :
        ((rank (current entered).stage < rank Stage.commit)
          × ((current d).stage ≡ Stage.commit)
          × In (new_lock m signed) d.locks
          × ((h : ℕ)
              → hash_count h d.locks
                ≡ (if h == s.state_hash m.state then 1 else hash_count h c.locks))
          × (d.commit_timeout ≡ time_add now (commit_duration c.latency m.round)))
        ⊎ ((rank Stage.commit ≤ rank (current entered).stage)
            × ((current d).stage ≡ (current entered).stage)
            × (d.locks ≡ c.locks)
            × (d.commit_timeout ≡ c.commit_timeout))
