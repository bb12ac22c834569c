-- ===== src/Samples/Convincing.antt =====
-- The leader of the group of four, from its start to the commits of a height, and another
-- participant.
use mathlib.Core.Option.{some-injective}
use bdls.Base.{
  ℕ, sym, ◌∙◌, Bool-cases, inl, inr, Option, ltb, ◌+◌, ◌≡◌, refl, ap, [], ◌∷◌, none, some, true,
  arith, is_ok, is_ok-value_or, value_or, ok, if◌then◌else◌,
}
use bdls.Round.{
  add_round_change, find_round_change, add_commit, num_committed, signed_commits, insert_by_hash,
  sort_by_hash, longest_run, max_of_sorted, get_max_proposed, new_round, signed_round_changes,
}
use bdls.Message.Axis.{of_bytes, join_axes}
use bdls.Message.Signing.{public_key, verify}
use bdls.Message.{Bytes, State, Message, MessageType, SignedProto}
use bdls.Consensus.State.{Consensus, Setup, current}
use bdls.Consensus.Timing.{time_add, collect_duration, scaled, shift_one}
use bdls.Consensus.Rounds.{search_round, get_round, switch_round, round_leader, leader_of}
use bdls.Consensus.Proposals.{maximal_locked, maximal, maximal_unconfirmed}
use bdls.Consensus.Checks.{verify_signed, verify_message}
use bdls.Consensus.Verify.{verify_round_change, verify_commit, verify_decide}
use bdls.Consensus.Send.{
  seal, broadcast, proposal, send_round_change, broadcast_round_change, broadcast_lock,
  broadcast_decide,
}
use bdls.Consensus.Handlers.{
  drop_message, scan_one, scan_rounds, enter_lock, track_max, accept_round_change, on_round_change,
  add_committed, on_commit,
}
use bdls.Consensus.Receive.{dispatch, receive}
use bdls.Consensus.Config.{init}
use bdls.Consensus.Update.{lock_proposed, on_leader, update_lock, tick_in, tick}
use bdls.Consensus.Reachable.{Reach, here, next, receives, ticks}
use bdls.Consensus.Tally.{Fixed, OneKey, join_axes-OneKey}
use bdls.Consensus.Convinced.{decide_message, committed, decide-convinces}
use bdls.Samples.Toy.{toy, toy_config, signed_by, with_proof, toy_lib, decode_signed}

-- The hash of a state: one more than its byte, or 0 where it is not of one byte.
abbrev digest : State → ℕ
digest (some (b ∷ [])) = b + 1
digest _ = 0

-- Unmarshal refuses an axis above a byte.
abbrev decode_small : Bytes → Option SignedProto
decode_small (x ∷ message) = if ltb x 256 then decode_signed (x ∷ message) else none
decode_small [] = none

decode_small-Fixed :
    (bts : Bytes) (sp : SignedProto) → decode_small bts ≡ some sp → Fixed (public_key sp)
decode_small-Fixed [] sp e = absurd (cc e)
decode_small-Fixed (x ∷ message) sp e = elim (Bool-cases (ltb x 256)) [
  | inl small ↦
      let same : decode_signed (x ∷ message) ≡ some sp =
        sym (ap (λ b. if b then decode_signed (x ∷ message) else none) small) ∙ e in
      let read = some-injective _ _ same in
      let first = ap (λ (p : SignedProto). p.x) read in
      let second = ap (λ (p : SignedProto). p.y) read in
      (ground (arith, small, first), ground (arith, second))
  | inr large ↦ absurd (cc (ap (λ b. if b then decode_signed (x ∷ message) else none) large, e))
]

abbrev identity_of : ℕ → ℕ
identity_of me = join_axes me 0

-- The group, with the default identities and hashes that are not 0.
abbrev group : ℕ → Setup
group me = record (toy me) {
  lib = record toy_lib { unmarshal_signed = decode_small };
  state_hash = digest;
  pub_key_to_identity = λ pk. join_axes pk.x pk.y;
  identity = identity_of me;
  participants = identity_of 1 ∷ identity_of 2 ∷ identity_of 3 ∷ identity_of 4 ∷ [];
}

-- A message of participant `who` for round 0 of height 1.
abbrev of_kind : ℕ → ℕ → Bytes
of_kind tag who = who ∷ tag ∷ 1 ∷ 0 ∷ 7 ∷ []

abbrev begun : ℕ → Consensus
begun me = init (group me) toy_config

abbrev heard : ℕ → ℕ → Consensus → Consensus
heard tag who c = value_or c (receive (group 1) c (of_kind tag who) 5)

-- The leader that has heard of the three others, has locked, and has two commits.
abbrev asked : Consensus
asked = heard 1 4 (heard 1 3 (heard 1 2 (begun 1)))

abbrev locked : Consensus
locked = value_or asked (tick (group 1) asked 6)

abbrev nearly : Consensus
nearly = heard 4 3 (heard 4 2 locked)

abbrev last_commit : Message
last_commit = with_proof MessageType.commit 1 0 []

abbrev last_signed : SignedProto
last_signed = signed_by 4 4 1 0

digest_unique : (b : State) → digest b ≡ 8 → b ≡ some (7 ∷ [])
digest_unique none e = absurd (ground (arith, e))
digest_unique (some []) e = absurd (ground (arith, e))
digest_unique (some (b ∷ [])) e = let h : b ≡ 7 = omega arith in ap (λ (k : ℕ). some (k ∷ [])) h
digest_unique (some (b ∷ d ∷ bs)) e = absurd (ground (arith, e))

group-OneKey : OneKey (group 1)
group-OneKey = join_axes-OneKey (group 1) (λ k. refl)

run :
    (is_ok (receive (group 1) (begun 1) (of_kind 1 2) 5) ≡ true)
    × (is_ok (receive (group 1) (heard 1 2 (begun 1)) (of_kind 1 3) 5) ≡ true)
    × (is_ok (receive (group 1) (heard 1 3 (heard 1 2 (begun 1))) (of_kind 1 4) 5) ≡ true)
    × (is_ok (tick (group 1) asked 6) ≡ true)
    × (is_ok (receive (group 1) locked (of_kind 4 2) 5) ≡ true)
    × (is_ok (receive (group 1) (heard 4 2 locked) (of_kind 4 3) 5) ≡ true)
    × (num_committed (current (committed (group 1) nearly last_commit last_signed)) ≡ 3)
    × (nearly.latest_height ≡ 0)
    × ((begun 2).latest_height ≡ 0)
    × (verify_commit (group 1) nearly last_commit ≡ ok tt)
    × (round_leader (group 1) 0 ≡ ok (identity_of 1))
    × (verify (group 1).lib last_signed ≡ true)
unfolding add_round_change find_round_change add_commit num_committed signed_commits insert_by_hash
    sort_by_hash longest_run max_of_sorted get_max_proposed new_round signed_round_changes of_bytes
    verify search_round get_round switch_round round_leader leader_of maximal_locked maximal
    maximal_unconfirmed verify_signed verify_message verify_round_change verify_commit seal
    broadcast proposal send_round_change broadcast_round_change broadcast_lock drop_message scan_one
    scan_rounds enter_lock track_max accept_round_change on_round_change add_committed on_commit
    dispatch receive init lock_proposed on_leader update_lock tick_in tick time_add collect_duration
    scaled shift_one join_axes
run = (refl, refl, refl, refl, refl, refl, refl, refl, refl, refl, refl, refl)

reached : Reach (group 1) (begun 1) nearly
reached =
    next
      (next
        (next
          (next
            (next (next here (receives (of_kind 1 2) 5 (is_ok-value_or _ _ run.0)))
              (receives (of_kind 1 3) 5 (is_ok-value_or _ _ run.1)))
            (receives (of_kind 1 4) 5 (is_ok-value_or _ _ run.2)))
          (ticks 6 (is_ok-value_or _ _ run.3)))
        (receives (of_kind 4 2) 5 (is_ok-value_or _ _ run.4)))
      (receives (of_kind 4 3) 5 (is_ok-value_or _ _ run.5))

decide-convinces_example :
    ((broadcast_decide (group 1) (committed (group 1) nearly last_commit last_signed)).1.message
      ≡ (group 1).lib.marshal_message
          (decide_message (group 1) (committed (group 1) nearly last_commit last_signed)))
    × (verify_decide
          (record (group 1) { identity = identity_of 2; private_key = (group 2).private_key })
          (begun 2)
          (decide_message (group 1) (committed (group 1) nearly last_commit last_signed))
          (broadcast_decide (group 1) (committed (group 1) nearly last_commit last_signed)).1
        ≡ ok tt)
unfolding join_axes
decide-convinces_example =
    decide-convinces (group 1) toy_config nearly (of_kind 4 4) last_commit last_signed
      (identity_of 2) (group 2).private_key (begun 2) group-OneKey decode_small-Fixed digest_unique
      (λ e. cc e) refl reached refl (refl, run.11, refl) refl run.10 run.9 (ground (arith, run.6))
      (ground (arith, run.7, run.8))
