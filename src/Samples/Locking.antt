-- ===== src/Samples/Locking.antt =====
-- A <lock> message with three proofs reaches participant 2 of the group of four.
use bdls.Base.{value_or}
use bdls.Message.{Message, MessageType}
use bdls.Consensus.State.{Consensus}
use bdls.Consensus.Handlers.{on_lock}
use bdls.Consensus.Locked.Entering.{Locked}
use bdls.Samples.Toy.{toy, signed_by, by_three, with_proof, started}

abbrev message : Message
message = with_proof MessageType.lock 1 0 (by_three 1 1 0)

abbrev locked : Consensus
locked = value_or (started 2) (on_lock (toy 2) (started 2) message (signed_by 1 2 1 0) 50)
