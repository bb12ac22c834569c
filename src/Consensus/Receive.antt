-- ===== src/Consensus/Receive.antt =====
-- receiveMessage, ReceiveMessage and the queue of messages to oneself, of consensus.go.
use bdls.Base.{
  List, ℕ, zero, suc, [], ◌∷◌, Option, none, some, Bool, true, Outcome, ok, err, panic, ◌>>=◌, ◌>>◌,
  require, ◌==◌,
}
use bdls.Errors.{Error}
use bdls.Message.{Bytes, Message, MessageType, SignedProto, protocol_version}
use bdls.Consensus.State.{Consensus, Setup}
use bdls.Consensus.Checks.{decoded, verify_message}
use bdls.Consensus.Handlers.{
  on_round_change, on_select, on_lock, on_lock_release, on_commit, on_decide, on_resync,
}

module _ (s : Setup) where
  -- `c.messageValidator(c, m, signed)`, where it is set.
  abbrev pub accepts : Consensus → Message → SignedProto → Bool
  accepts c m signed = elim s.message_validator [
    | none ↦ true
    | some validate ↦ validate c m signed
  ]

  -- The `switch m.Type` of `receiveMessage`.
  unfoldable pub dispatch :
      MessageType → Consensus → Bytes → Message → SignedProto → ℕ → Outcome Consensus
  dispatch MessageType.nop c bts m signed now = ok c
  dispatch MessageType.round_change c bts m signed now = on_round_change s c m signed now
  dispatch MessageType.select c bts m signed now = on_select s c m signed now
  dispatch MessageType.lock c bts m signed now = on_lock s c m signed now
  dispatch MessageType.lock_release c bts m signed now = on_lock_release s c m
  dispatch MessageType.commit c bts m signed now = on_commit s c m signed now
  dispatch MessageType.decide c bts m signed now = on_decide s c bts m signed now
  dispatch MessageType.resync c bts m signed now = ok (on_resync s c m)
  dispatch (MessageType.other n) c bts m signed now = err Error.message_unknown_message_type

  -- `receiveMessage`. Every error is returned before the object is changed.
  unfoldable pub receive : Consensus → Bytes → ℕ → Outcome Consensus
  receive c bts now = do
    signed ← decoded (s.lib.unmarshal_signed bts)
    require (signed.version == protocol_version) Error.message_version
    m ← verify_message s (some signed)
    require (accepts c m signed) Error.message_validator
    dispatch m.kind c bts m signed now

  -- The state behind a call whose error is ignored; a panic is not.
  abbrev pub settle : Consensus → Outcome Consensus → Option Consensus
  settle c (ok c') = some c'
  settle c (err e) = some c
  settle c panic = none

  abbrev pub drain_from : Consensus → ℕ → List Bytes → Option Consensus
  drain_from c now [] = some c
  drain_from c now (bts ∷ rest) =
      let c1 = record c { loopback = rest } in settle c1 (receive c1 bts now)

  -- One round of the deferred loop: the first message of the queue, taken off it.
  unfoldable pub drain_one : Consensus → ℕ → Option Consensus
  drain_one c now = drain_from c now c.loopback

  -- The deferred loop, for as many rounds as the fuel allows.
  unfoldable pub drain : ℕ → Consensus → ℕ → Option Consensus
  drain zero c now = some c
  drain (suc fuel) c now = elim c.loopback [
    | [] ↦ some c
    | _ ∷ _ ↦ elim (drain_one c now) [ none ↦ none | some c' ↦ drain fuel c' now ]
  ]

  -- `ReceiveMessage`: the call's outcome, and the state behind the deferred loop.
  unfoldable pub receive_message : ℕ → Consensus → Bytes → ℕ → Option Consensus
  receive_message fuel c bts now = elim (settle c (receive c bts now)) [
    | none ↦ none
    | some c' ↦ drain fuel c' now
  ]
