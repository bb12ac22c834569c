-- ===== src/Consensus/Whole.antt =====
-- ReceiveMessage and Update of consensus.go, deferred loop included, as steps of the object.
use mathlib.Core.Option.{some-injective}
use bdls.Base.{
  ℕ, zero, suc, ◌≡◌, refl, subst, List, [], ◌∷◌, Option, none, some, Outcome, ok, err, panic,
}
use bdls.Message.{Bytes}
use bdls.Consensus.State.{Consensus, Setup}
use bdls.Consensus.Receive.{receive, settle, drain_one, drain, receive_message}
use bdls.Consensus.Update.{tick, update}
use bdls.Consensus.Reachable.{Reach, next, receives, ticks, drains}

module _ (s : Setup) where
  drain-Reach :
      (fuel : ℕ) (a c d : Consensus) (now : ℕ)
      → Reach s a c
      → drain s fuel c now ≡ some d
      → Reach s a d
  unfolding drain
  drain-Reach zero a c d now r e = subst (Reach s a) (some-injective _ _ e) r
  drain-Reach (suc fuel) a c d now r e =
      by_queue (λ c' k h. drain-Reach fuel a c' d now k h) c.loopback e
    where
      drained :
          (o : Option Consensus)
          → drain_one s c now ≡ o
          → ((c' : Consensus) → Reach s a c' → drain s fuel c' now ≡ some d → Reach s a d)
          → (elim o [ none ↦ none | some c' ↦ drain s fuel c' now ]) ≡ some d
          → Reach s a d
      drained none one ih h = absurd (cc h)
      drained (some c') one ih h = ih c' (next r (drains now one)) h

      by_queue :
          ((c' : Consensus) → Reach s a c' → drain s fuel c' now ≡ some d → Reach s a d)
          → (queue : List Bytes)
          → (elim queue [
            | [] ↦ some c
            | _ ∷ _ ↦ elim (drain_one s c now) [ none ↦ none | some c' ↦ drain s fuel c' now ]
          ])
            ≡ some d
          → Reach s a d
      by_queue ih [] h = subst (Reach s a) (some-injective _ _ h) r
      by_queue ih (bts ∷ rest) h = drained (drain_one s c now) refl ih h

  pub receive_message-Reach :
      (fuel : ℕ) (a c d : Consensus) (bts : Bytes) (now : ℕ)
      → Reach s a c
      → receive_message s fuel c bts now ≡ some d
      → Reach s a d
  unfolding receive_message
  receive_message-Reach fuel a c d bts now r e = by_outcome (receive s c bts now) refl e
    where
      by_outcome :
          (o : Outcome Consensus)
          → receive s c bts now ≡ o
          → (elim (settle s c o) [ none ↦ none | some c' ↦ drain s fuel c' now ]) ≡ some d
          → Reach s a d
      by_outcome (ok c') f h = drain-Reach fuel a c' d now (next r (receives bts now f)) h
      by_outcome (err x) f h = drain-Reach fuel a c d now r h
      by_outcome panic f h = absurd (cc h)

  pub update-Reach :
      (fuel : ℕ) (a c d : Consensus) (now : ℕ)
      → Reach s a c
      → update s fuel c now ≡ some d
      → Reach s a d
  unfolding update
  update-Reach fuel a c d now r e = by_outcome (tick s c now) refl e
    where
      by_outcome :
          (o : Outcome Consensus)
          → tick s c now ≡ o
          → (elim o [ ok c' ↦ drain s fuel c' now | _ ↦ none ]) ≡ some d
          → Reach s a d
      by_outcome (ok c') f h = drain-Reach fuel a c' d now (next r (ticks now f)) h
      by_outcome (err x) f h = absurd (cc h)
      by_outcome panic f h = absurd (cc h)
