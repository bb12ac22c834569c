-- ===== src/Samples/Rules.antt =====
-- Messages, locks, timeouts and leaders at concrete values.
use Prim.Native.Nat.{min}
use bdls.Base.{
  ◌++◌, ◌+◌, ◌<◌, sign_bit, ℕ, ◌≡◌, ◌≤◌, refl, [], ◌∷◌, some, true, All, In, arith, ok, get_elem?,
}
use bdls.Message.{SignedProto, MessageType}
use bdls.Message.Axis.{axis_marshal, axis_unmarshal, axis_unmarshal-marshal}
use bdls.Message.Signing.{preimage}
use bdls.Message.Preimage.{IsWellFormed, preimage-injective}
use bdls.Round.{Tuple}
use bdls.Consensus.State.{Consensus}
use bdls.Consensus.Timing.{max_consensus_latency}
use bdls.Consensus.Timeouts.{Durations, Durations-exact, Durations-vanish}
use bdls.Consensus.Rounds.{round_leader}
use bdls.Consensus.Checks.{is_participant}
use bdls.Consensus.Leaders.{round_leader-participant}
use bdls.Consensus.Locks.{not_lower, release_into, lock_release}
use bdls.Message.Signing.{sign}
use bdls.Consensus.Send.{to_all}
use bdls.Consensus.LockRules.{AtLeast, release_content, lock_release-highest, release_into-AtLeast}
use bdls.Samples.Toy.{toy, toy_lib, signed_by, with_proof, started}

-- A lock of a round on the state 7.
abbrev lock_of : ℕ → Tuple
lock_of round = record {
  state_hash = 7;
  message = with_proof MessageType.lock 1 round [];
  signed = signed_by 1 2 1 round;
}

release_into-AtLeast_example :
    let locks = lock_of 1 ∷ lock_of 3 ∷ [] in
    AtLeast 2 (release_into (lock_of 2) locks)
    × All (λ t. In t (release_into (lock_of 2) locks)) (not_lower 2 locks)
release_into-AtLeast_example = release_into-AtLeast (lock_of 2) (lock_of 1 ∷ lock_of 3 ∷ [])

abbrev holding : Consensus
holding = record (started 2) { locks = lock_of 1 ∷ lock_of 3 ∷ [] }

lock_release-highest_example :
    (max : Tuple) × ((lock_release (toy 2) holding).locks ≡ max ∷ [])
    × In max (lock_of 1 ∷ lock_of 3 ∷ [])
    × All (λ u. u.message.round ≤ max.message.round) (lock_of 1 ∷ lock_of 3 ∷ [])
    × (let content = release_content holding max.signed in
        let sent = sign toy_lib holding.rand content (toy 2).private_key in
        ((lock_release (toy 2) holding).outputs
          ≡ holding.outputs ++ to_all holding.peers (toy_lib.marshal_signed sent))
        × ((lock_release (toy 2) holding).loopback
            ≡ holding.loopback ++ toy_lib.marshal_signed sent ∷ []))
lock_release-highest_example =
    lock_release-highest (toy 2) holding (lock_of 1) (lock_of 3 ∷ []) refl

Durations-exact_example :
    Durations 300_000_000 3
      (min max_consensus_latency 4_800_000_000)
      (min max_consensus_latency 9_600_000_000)
Durations-exact_example = Durations-exact 300_000_000 3 (omega arith) (omega arith)

Durations-vanish_example : Durations 300_000_000 64 0 0
Durations-vanish_example = Durations-vanish 300_000_000 64 (omega arith)

round_leader-participant_example :
    (p : ℕ) × (round_leader (toy 2) 6 ≡ ok p)
    × (get_elem? (toy 2).participants 2 ≡ some p)
    × (is_participant (toy 2) p ≡ true)
    × (6 + 4 < sign_bit → round_leader (toy 2) 10 ≡ ok p)
round_leader-participant_example =
    round_leader-participant (toy 2) refl (omega arith) 6 (omega arith)

-- The last uint64 is -1 as an int.

abbrev first : SignedProto
first = signed_by 1 2 1 0

first-IsWellFormed : IsWellFormed first
first-IsWellFormed = record {
  version_fits = omega arith;
  x_fits = omega arith;
  y_fits = omega arith;
}

-- Another signature of the same content.
abbrev again : SignedProto
again = record first { r = 9 ∷ [] }

again-IsWellFormed : IsWellFormed again
again-IsWellFormed = record {
  version_fits = omega arith;
  x_fits = omega arith;
  y_fits = omega arith;
}

preimage-injective_example :
    (first.version ≡ again.version)
    × (first.x ≡ again.x)
    × (first.y ≡ again.y)
    × (first.message ≡ again.message)
unfolding preimage
preimage-injective_example =
    preimage-injective first again first-IsWellFormed again-IsWellFormed refl

axis_unmarshal-marshal_example : axis_unmarshal 0 (axis_marshal 77) ≡ ok 77
axis_unmarshal-marshal_example = axis_unmarshal-marshal 77 (omega arith)
