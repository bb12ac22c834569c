-- ===== src/Samples/Choosing.antt =====
-- What a participant of the group of four asks for, and the round that counts proposals.
use bdls.Base.{ℕ, ◌≡◌, refl, [], ◌∷◌, some, true, arith}
use bdls.Message.{MessageType}
use bdls.Round.{Round, Tuple, new_round, get_max_proposed}
use bdls.Round.Proposed.{MostProposed, get_max_proposed-MostProposed}
use bdls.Consensus.State.{Consensus}
use bdls.Consensus.Proposals.{propose, has_proposed}
use bdls.Consensus.Send.{proposal}
use bdls.Consensus.Choice.{
  IsOrder, IsMaximal, lock_states, first_filled, proposal-IsMaximal, propose-once,
}
use bdls.Samples.Toy.{toy, signed_by, with_proof, started}

first_byte_IsOrder : IsOrder (toy 2).state_compare
first_byte_IsOrder = record {
  transitive = λ a b c ab bc. ground arith;
  irreflexive = λ a. ground arith;
}

-- A tuple for a state.
abbrev tuple_for : ℕ → ℕ → Tuple
tuple_for who n = record {
  state_hash = n;
  message = record (with_proof MessageType.lock 1 0 []) { state = some (n ∷ []) };
  signed = signed_by who 2 1 0;
}

abbrev locking : Consensus
locking = record (started 2) { locks = tuple_for 1 7 ∷ tuple_for 1 9 ∷ [] }

proposal-IsMaximal_example :
    IsMaximal
      (toy 2).state_compare
      (proposal (toy 2) locking)
      (first_filled (lock_states locking) locking.unconfirmed)
proposal-IsMaximal_example =
    proposal-IsMaximal (toy 2) first_byte_IsOrder locking (refl, (refl, tt)) (λ e. cc e)

abbrev proposing : Consensus
proposing = record (started 2) { locks = []; unconfirmed = some (7 ∷ []) ∷ some (9 ∷ []) ∷ [] }

propose-once_example :
    let d = propose (toy 2) proposing (some (5 ∷ [])) in
    (has_proposed (toy 2) d (some (5 ∷ 1 ∷ [])) ≡ true)
    × (propose (toy 2) d (some (5 ∷ 1 ∷ [])) ≡ d)
propose-once_example = propose-once (toy 2) proposing (5 ∷ []) (5 ∷ 1 ∷ []) refl

abbrev asked : Round
asked = record (new_round 0) { round_changes = tuple_for 1 7 ∷ tuple_for 2 9 ∷ tuple_for 3 7 ∷ [] }

get_max_proposed-MostProposed_example :
    MostProposed asked.round_changes
      (get_max_proposed asked).0.round_changes
      (get_max_proposed asked).1
      (get_max_proposed asked).2
get_max_proposed-MostProposed_example = get_max_proposed-MostProposed asked
