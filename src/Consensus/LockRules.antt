-- ===== src/Consensus/LockRules.antt =====
-- How the locks of consensus.go develop.
use bdls.Base.{
  ℕ, some, u64, ◌+◌, ◌≤◌, ◌≡◌, refl, ap, ◌∙◌, List, [], ◌∷◌, ◌++◌, false, ◌⊎◌, inl, inr, arith, ltb,
  if◌then◌else◌, length, All, All-append, In, Bool-cases,
}
use bdls.Message.{Message, MessageType, SignedProto, empty_message}
use bdls.Message.Signing.{sign}
use bdls.Round.{Tuple}
use bdls.Consensus.State.{Consensus, Setup, callback, current}
use bdls.Consensus.Send.{broadcast_lock_release, broadcast, seal, to_all}
use bdls.Consensus.Locks.{
  higher, highest_lock, not_lower, keep_released, release_into, lock_release,
}

higher-ge :
    (best t : Tuple)
    → (best.message.round ≤ (higher best t).message.round)
      × (t.message.round ≤ (higher best t).message.round)
unfolding higher
higher-ge best t = elim (Bool-cases (ltb best.message.round t.message.round)) [
  | inl lower ↦ rw lower (ground (arith, lower), omega arith)
  | inr not_less ↦ rw not_less (omega arith, ground (arith, not_less))
]

higher-In : (best t : Tuple) → (higher best t ≡ best) ⊎ (higher best t ≡ t)
unfolding higher
higher-In best t = ground arith

highest_lock-ge :
    (best : Tuple) (ts : List Tuple)
    → (best.message.round ≤ (highest_lock best ts).message.round)
      × All (λ t. t.message.round ≤ (highest_lock best ts).message.round) ts
unfolding highest_lock
highest_lock-ge best [] = (omega arith, tt)
highest_lock-ge best (t ∷ ts) =
    let (above, all) = highest_lock-ge (higher best t) ts in
    let (first, second) = higher-ge best t in (omega arith, (omega arith, all))

highest_lock-In : (best : Tuple) (ts : List Tuple) → In (highest_lock best ts) (best ∷ ts)
unfolding highest_lock
highest_lock-In best [] = inl refl
highest_lock-In best (t ∷ ts) = elim (highest_lock-In (higher best t) ts) [
  | inl e ↦ elim (higher-In best t) [ inl f ↦ inl (e ∙ f) | inr f ↦ inr (inl (e ∙ f)) ]
  | inr later ↦ inr (inr later)
]

-- The <lock-release> message around a signed <lock> message.
abbrev pub release_content : Consensus → SignedProto → Message
release_content c signed = record empty_message {
  kind = MessageType.lock_release;
  height = u64 (c.latest_height + 1);
  round = (current c).round_number;
  lock_release = some signed;
}

highest-kept :
    (s : Setup) (c : Consensus) (t : Tuple) (ts : List Tuple)
    → c.locks ≡ t ∷ ts
    → lock_release s c
      ≡ broadcast_lock_release s
          (record c { locks = highest_lock t ts ∷ [] })
          (highest_lock t ts).signed
unfolding lock_release
highest-kept s c t ts e = ground arith

-- Entering the lock-release stage with some lock leaves one: a lock that was there, of a round
-- that no other one was above. Its signed <lock> message goes out, to all peers and to oneself, in a
-- signed <lock-release> message for the next height and the current round.
pub lock_release-highest :
    (s : Setup) (c : Consensus) (t : Tuple) (ts : List Tuple)
    → c.locks ≡ t ∷ ts
    → (max : Tuple) × ((lock_release s c).locks ≡ max ∷ [])
      × In max (t ∷ ts)
      × All (λ u. u.message.round ≤ max.message.round) (t ∷ ts)
      × (let content = release_content c max.signed in
          let sent = sign s.lib c.rand content s.private_key in
          ((lock_release s c).outputs
            ≡ (if s.has_callback then c.outputs ++ callback content sent ∷ [] else c.outputs)
              ++ to_all c.peers (s.lib.marshal_signed sent))
          × ((lock_release s c).loopback ≡ c.loopback ++ s.lib.marshal_signed sent ∷ []))
unfolding broadcast_lock_release broadcast seal
lock_release-highest s c t ts e =
    let kept = highest-kept s c t ts e in
    (
      highest_lock t ts,
      ap (λ (x : Consensus). x.locks) kept,
      highest_lock-In t ts,
      highest_lock-ge t ts,
      (ap (λ (x : Consensus). x.outputs) kept, ap (λ (x : Consensus). x.loopback) kept),
    )

abbrev pub AtLeast : ℕ → List Tuple → Type 0
AtLeast round = All (λ t. round ≤ t.message.round)

not_lower-AtLeast : (round : ℕ) (ts : List Tuple) → AtLeast round (not_lower round ts)
not_lower-AtLeast round [] = tt
not_lower-AtLeast round (t ∷ ts) = elim (Bool-cases (ltb t.message.round round)) [
  | inl lower ↦ rw lower (not_lower-AtLeast round ts)
  | inr above ↦ rw above (ground (arith, above), not_lower-AtLeast round ts)
]

length-not_lower : (round : ℕ) (ts : List Tuple) → length (not_lower round ts) ≤ length ts
length-not_lower round [] = omega arith
length-not_lower round (t ∷ ts) = ground (arith, length-not_lower round ts)

none_lower :
    (round : ℕ) (ts : List Tuple)
    → ltb (length (not_lower round ts)) (length ts) ≡ false
    → AtLeast round ts
none_lower round [] h = tt
none_lower round (t ∷ ts) h = (
  ground (arith, h, length-not_lower round ts),
  none_lower round ts (ground (arith, h, length-not_lower round ts)),
)

keep_released-AtLeast :
    (new : Tuple) (kept locks : List Tuple)
    → AtLeast new.message.round kept
    → (ltb (length kept) (length locks) ≡ false → AtLeast new.message.round locks)
    → AtLeast new.message.round (keep_released new kept locks)
unfolding keep_released
keep_released-AtLeast new kept locks k l = elim (Bool-cases (ltb (length kept) (length locks))) [
  | inl fewer ↦
      rw fewer
        (All-append (λ t. new.message.round ≤ t.message.round) kept (new ∷ []) k (omega arith, tt))
  | inr same ↦ rw same (l same)
]

released-AtLeast :
    (new : Tuple) (locks : List Tuple) → AtLeast new.message.round (release_into new locks)
unfolding release_into
released-AtLeast new [] = (omega arith, tt)
released-AtLeast new (t ∷ ts) =
    keep_released-AtLeast new (not_lower new.message.round (t ∷ ts)) (t ∷ ts)
      (not_lower-AtLeast new.message.round (t ∷ ts)) (none_lower new.message.round (t ∷ ts))

In-append : (t : Tuple) (ts us : List Tuple) → In t ts → In t (ts ++ us)
In-append t [] us i = absurd i
In-append t (u ∷ ts) us (inl e) = inl e
In-append t (u ∷ ts) us (inr i) = inr (In-append t ts us i)

In-not_lower :
    (round : ℕ) (t : Tuple) (ts : List Tuple)
    → round ≤ t.message.round
    → In t ts
    → In t (not_lower round ts)
In-not_lower round t [] h i = absurd i
In-not_lower round t (u ∷ ts) h (inl e) =
    let stays : ltb u.message.round round ≡ false =
      ground (arith, ap (λ (v : Tuple). v.message.round) e) in
    rw stays (inl e)
In-not_lower round t (u ∷ ts) h (inr i) = elim (Bool-cases (ltb u.message.round round)) [
  | inl lower ↦ rw lower (In-not_lower round t ts h i)
  | inr above ↦ rw above (inr (In-not_lower round t ts h i))
]

released-keeps :
    (new t : Tuple) (locks : List Tuple)
    → new.message.round ≤ t.message.round
    → In t locks
    → In t (release_into new locks)
unfolding release_into keep_released
released-keeps new t [] h i = absurd i
released-keeps new t (u ∷ us) h i =
    let kept = not_lower new.message.round (u ∷ us) in
    elim (Bool-cases (ltb (length kept) (length (u ∷ us)))) [
      | inl fewer ↦
          rw fewer (In-append t kept (new ∷ []) (In-not_lower new.message.round t (u ∷ us) h i))
      | inr same ↦ rw same i
    ]

All-not_lower {κ} :
    (P : Tuple → Type κ) (round : ℕ) (ts : List Tuple)
    → ((t : Tuple) → round ≤ t.message.round → In t ts → P t)
    → All P (not_lower round ts)
All-not_lower P round [] f = tt
All-not_lower P round (t ∷ ts) f =
    let rest = All-not_lower P round ts (λ u h i. f u h (inr i)) in
    elim (Bool-cases (ltb t.message.round round)) [
      | inl lower ↦ rw lower rest
      | inr above ↦ rw above (f t (ground (arith, above)) (inl refl), rest)
    ]

-- After a <lock-release> message no lock has a lower round than the released one, and each lock that
-- had none is still there.
pub release_into-AtLeast :
    (new : Tuple) (locks : List Tuple)
    → AtLeast new.message.round (release_into new locks)
      × All (λ t. In t (release_into new locks)) (not_lower new.message.round locks)
release_into-AtLeast new locks = (
  released-AtLeast new locks,
  All-not_lower (λ t. In t (release_into new locks)) new.message.round locks
      (λ t h i. released-keeps new t locks h i),
)
