-- ===== src/Consensus/Checks.antt =====
-- What the checks of consensus.go on incoming messages share: verifyMessage, the loop over proofs,
-- and the tests on states.
use bdls.Base.{
  ℕ, suc, List, [], ◌∷◌, Option, none, some, Bool, true, false, not, ◌&&◌, Outcome, ok, err, panic,
  ◌>>◌, require, ltb, ◌==◌, if◌then◌else◌, any_of, count_if,
}
use bdls.Base.Assoc.{insert, values}
use bdls.Errors.{Error}
use bdls.Message.{Bytes, State, Message, MessageType, SignedProto}
use bdls.Message.Signing.{public_key, verify}
use bdls.Round.{Stage}
use bdls.Consensus.State.{Setup, is_lt}

abbrev pub is_round_change : MessageType → Bool
is_round_change MessageType.round_change = true
is_round_change _ = false

abbrev pub is_commit : MessageType → Bool
is_commit MessageType.commit = true
is_commit _ = false

abbrev pub is_decide : MessageType → Bool
is_decide MessageType.decide = true
is_decide _ = false

abbrev pub in_commit : Stage → Bool
in_commit Stage.commit = true
in_commit _ = false

abbrev pub in_lock_release : Stage → Bool
in_lock_release Stage.lock_release = true
in_lock_release _ = false

-- `if err == ErrMessageUnknownParticipant { return e }; return err`.
abbrev pub as_unknown {ℓ} : {A : Type ℓ} → Error → Outcome A → Outcome A
as_unknown e (ok a) = ok a
as_unknown e (err Error.message_unknown_participant) = err e
as_unknown e (err other) = err other
as_unknown e panic = panic

abbrev pub decoded {ℓ} : {A : Type ℓ} → Option A → Outcome A
decoded none = err Error.unmarshal
decoded (some a) = ok a

-- The loop over `m.Proof`: each proof is checked, and its state recorded under its signer.
unfoldable pub collect :
    (SignedProto → Outcome State)
    → (SignedProto → ℕ)
    → List SignedProto
    → List (ℕ × State)
    → Outcome (List (ℕ × State))
collect check signer [] acc = ok acc
collect check signer (p ∷ ps) acc = elim (check p) [
  | ok st ↦ collect check signer ps (insert (signer p) st acc)
  | err e ↦ err e
  | panic ↦ panic
]

-- `dataProposals[h]++`.
unfoldable pub bump : ℕ → List (ℕ × ℕ) → List (ℕ × ℕ)
bump h [] = (h, 1) ∷ []
bump h ((k, n) ∷ counts) =
    let rest = bump h counts in if h == k then (k, suc n) ∷ counts else (k, n) ∷ rest

-- The loop that finds the highest count.
unfoldable pub max_count : ℕ → List (ℕ × ℕ) → ℕ
max_count best [] = best
max_count best ((k, n) ∷ counts) = max_count (if ltb best n then n else best) counts

-- `bytes.Equal`, for which nil is empty.
abbrev pub equal_bytes : Bytes → Bytes → Bool
equal_bytes [] [] = true
equal_bytes (a ∷ bs) (b ∷ cs) = a == b && equal_bytes bs cs
equal_bytes _ _ = false

abbrev pub bytes_of : State → Bytes
bytes_of none = []
bytes_of (some b) = b

module _ (s : Setup) where
  -- `c.pubKeyToIdentity(signed.PublicKey(c.curve))`.
  abbrev pub signer_of : SignedProto → ℕ
  signer_of sp = s.pub_key_to_identity (public_key sp)

  abbrev pub is_participant : ℕ → Bool
  is_participant id = any_of (λ k. id == k) s.participants

  -- `verifyMessage`, of a message that is not nil.
  unfoldable pub verify_signed : SignedProto → Outcome Message
  verify_signed sp = do
    require (is_participant (signer_of sp)) Error.message_unknown_participant
    require (verify s.lib sp) Error.message_signature
    decoded (s.lib.unmarshal_message sp.message)

  -- `verifyMessage`.
  unfoldable pub verify_message : Option SignedProto → Outcome Message
  verify_message none = err Error.message_is_empty
  verify_message (some sp) = verify_signed sp

  -- `if state != nil && !c.stateValidate(state)` fails.
  abbrev pub nil_or_valid : State → Bool
  nil_or_valid none = true
  nil_or_valid (some b) = s.state_validate (some b)

  -- How many entries of a map hold a state with the hash of `st`.
  abbrev pub votes : State → List (ℕ × State) → ℕ
  votes st rcs = count_if (λ v. s.state_hash v == s.state_hash st) (values rcs)

  -- `mProof.State != nil && m.State != nil && c.stateCompare(m.State, mProof.State) < 0` fails.
  abbrev pub not_above : State → State → Bool
  not_above none st = true
  not_above (some a) none = true
  not_above (some a) (some b) = not (is_lt (s.state_compare (some a) (some b)))

  -- `dataProposals`: for each hash of a state that is not nil, how often it was proposed.
  unfoldable pub count_proposals : List (ℕ × State) → List (ℕ × ℕ) → List (ℕ × ℕ)
  unfolding bump
  count_proposals [] acc = acc
  count_proposals ((id, none) ∷ rcs) acc = count_proposals rcs acc
  count_proposals ((id, some b) ∷ rcs) acc = count_proposals rcs (bump (s.state_hash (some b)) acc)
