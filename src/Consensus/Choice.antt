-- ===== src/Consensus/Choice.antt =====
-- broadcastRoundChange's choice of a state, Propose, and sendCommit, of consensus.go.
use bdls.Base.{
  ◌≡◌, ◌≢◌, refl, sym, ap, subst, ◌∙◌, ◌⊎◌, List, [], ◌∷◌, ◌++◌, map, some, Bool, true, false, ◌||◌,
  inl, inr, arith, All, In, Bool-cases, if◌then◌else◌, any_of, ◌==◌, eq_self, is_some,
}
use Prim.Native.Nat.{Ordering}
use bdls.Message.{Bytes, State}
use bdls.Round.{Tuple}
use bdls.Consensus.State.{Consensus, Setup, is_lt}
use bdls.Consensus.Proposals.{
  max_from, maximal, maximal_locked, maximal_unconfirmed, propose, has_proposed,
}
use bdls.Consensus.Send.{proposal}

-- What StateCompare is documented to be, as far as it is used: "less" is transitive, and no state is
-- less than itself.
pub record IsOrder (compare : State → State → Ordering) : Type 0 where
  pub transitive :
      (a b c : State)
      → is_lt (compare a b) ≡ true
      → is_lt (compare b c) ≡ true
      → is_lt (compare a c) ≡ true
  pub irreflexive : (a : State) → is_lt (compare a a) ≡ false

-- A state of the list that no state of the list is above.
abbrev pub IsMaximal : (State → State → Ordering) → State → List State → Type 0
IsMaximal compare best xs = In best xs × All (λ x. is_lt (compare best x) ≡ false) xs

module _ (compare : State → State → Ordering) (order : IsOrder compare) where
  -- What is not above a state is not above a higher one.
  not_above_higher :
      (a b x : State)
      → is_lt (compare a b) ≡ true
      → is_lt (compare a x) ≡ false
      → is_lt (compare b x) ≡ false
  not_above_higher a b x up n = elim (Bool-cases (is_lt (compare b x))) [
    | inl above ↦ absurd (cc (order.transitive a b x up above, n))
    | inr below ↦ below
  ]

  max_from-above :
      (best : State) (xs : List State) (y : State)
      → is_lt (compare best y) ≡ false
      → is_lt (compare (max_from compare best xs) y) ≡ false
  unfolding max_from
  max_from-above best [] y n = n
  max_from-above best (x ∷ xs) y n = elim (Bool-cases (is_lt (compare best x))) [
    | inl up ↦ rw (up, max_from) (max_from-above x xs y (not_above_higher best x y up n))
    | inr down ↦ rw (down, max_from) (max_from-above best xs y n)
  ]

  max_from-IsMaximal :
      (best : State) (xs : List State) → IsMaximal compare (max_from compare best xs) (best ∷ xs)
  unfolding max_from
  max_from-IsMaximal best [] = (inl refl, (order.irreflexive best, tt))
  max_from-IsMaximal best (x ∷ xs) = elim (Bool-cases (is_lt (compare best x))) [
    | inl up ↦
        let (i, all) = max_from-IsMaximal x xs in
        let above =
          max_from-above x xs best (not_above_higher best x best up (order.irreflexive best)) in
        let step : max_from compare best (x ∷ xs) ≡ max_from compare x xs =
          ap (λ b. max_from compare (if b then x else best) xs) up in
        subst (λ v. IsMaximal compare v (best ∷ x ∷ xs)) (sym step) (inr i, (above, all))
    | inr down ↦
        let (i, all) = max_from-IsMaximal best xs in
        let step : max_from compare best (x ∷ xs) ≡ max_from compare best xs =
          ap (λ b. max_from compare (if b then x else best) xs) down in
        let among : In (max_from compare best xs) (best ∷ x ∷ xs) = elim i [
          | inl e ↦ inl e
          | inr j ↦ inr (inr j)
        ] in
        subst (λ v. IsMaximal compare v (best ∷ x ∷ xs)) (sym step)
          (among, (all.0, (max_from-above best xs x down, all.1)))
  ]

  maximal-IsMaximal : (xs : List State) → xs ≢ [] → IsMaximal compare (maximal compare xs) xs
  unfolding maximal
  maximal-IsMaximal [] n = absurd (n refl)
  maximal-IsMaximal (x ∷ xs) n = max_from-IsMaximal x xs

In-All {κ} : (P : State → Type κ) (a : State) (xs : List State) → In a xs → All P xs → P a
In-All P a [] i h = absurd i
In-All P a (x ∷ xs) (inl e) h = subst P (sym e) h.0
In-All P a (x ∷ xs) (inr i) h = In-All P a xs i h.1

any_of-append :
    (p : State → Bool) (xs : List State) (x : State) → p x ≡ true → any_of p (xs ++ x ∷ []) ≡ true
any_of-append p [] x h = ground arith
any_of-append p (y ∷ xs) x h = ground (arith, any_of-append p xs x h)

or-true : (a b : Bool) → (a || (b || true)) ≡ true
or-true a b = ground arith

abbrev pub lock_states : Consensus → List State
lock_states c = map (λ (t : Tuple). t.message.state) c.locks

-- The first list, or the second where that one is empty.
abbrev pub first_filled : List State → List State → List State
first_filled [] us = us
first_filled (x ∷ xs) us = x ∷ xs

first_filled-first : (xs us : List State) → xs ≢ [] → first_filled xs us ≡ xs
first_filled-first [] us n = absurd (n refl)
first_filled-first (x ∷ xs) us n = refl

map-cases : (f : Tuple → State) (ts : List Tuple) → (ts ≡ []) ⊎ (map f ts ≢ [])
map-cases f [] = inl refl
map-cases f (t ∷ ts) = inr (λ e. cc e)

module _ (s : Setup) where
  proposal-locked :
      (c : Consensus) → is_some (maximal_locked s c) ≡ true → proposal s c ≡ maximal_locked s c
  unfolding proposal
  proposal-locked c h = ground arith

  proposal-unlocked : (c : Consensus) → c.locks ≡ [] → proposal s c ≡ maximal_unconfirmed s c
  unfolding proposal maximal_locked maximal
  proposal-unlocked c e = rw e refl

  proposal-locked_IsMaximal :
      IsOrder s.state_compare
      → (c : Consensus) → lock_states c ≢ []
      → All (λ st. is_some st ≡ true) (lock_states c)
      → IsMaximal s.state_compare (proposal s c) (lock_states c)
  unfolding maximal_locked
  proposal-locked_IsMaximal order c n filled =
      let best = maximal-IsMaximal s.state_compare order (lock_states c) n in
      let some_best =
        In-All (λ st. is_some st ≡ true) (maximal_locked s c) (lock_states c) best.0 filled in
      subst (λ v. IsMaximal s.state_compare v (lock_states c)) (sym (proposal-locked c some_best))
        best

  proposal-unlocked_IsMaximal :
      IsOrder s.state_compare
      → (c : Consensus) → c.locks ≡ []
      → c.unconfirmed ≢ []
      → IsMaximal s.state_compare (proposal s c) c.unconfirmed
  unfolding maximal_unconfirmed
  proposal-unlocked_IsMaximal order c e n =
      subst (λ v. IsMaximal s.state_compare v c.unconfirmed) (sym (proposal-unlocked c e))
        (maximal-IsMaximal s.state_compare order c.unconfirmed n)

  -- If StateCompare is an order, no lock is on nil, and there is a lock or a state to propose: a
  -- participant that holds locks asks for the next round with the state of a lock that no locked
  -- state is above, and one that holds none with a state to propose that none of them is above.
  pub proposal-IsMaximal :
      IsOrder s.state_compare
      → (c : Consensus) → All (λ st. is_some st ≡ true) (lock_states c)
      → first_filled (lock_states c) c.unconfirmed ≢ []
      → IsMaximal s.state_compare (proposal s c) (first_filled (lock_states c) c.unconfirmed)
  proposal-IsMaximal order c filled n = elim (map-cases (λ (t : Tuple). t.message.state) c.locks) [
    | inl e ↦
        let same =
          ap (λ ts. first_filled (map (λ (t : Tuple). t.message.state) ts) c.unconfirmed) e in
        subst (IsMaximal s.state_compare (proposal s c)) (sym same)
          (proposal-unlocked_IsMaximal order c e (λ none_left. n (same ∙ none_left)))
    | inr held ↦
        subst (IsMaximal s.state_compare (proposal s c)) (sym (first_filled-first _ _ held))
          (proposal-locked_IsMaximal order c held filled)
  ]

  queued :
      (c : Consensus) (b : Bytes)
      → any_of (λ u. s.state_hash u == s.state_hash (some b)) (propose s c (some b)).unconfirmed
        ≡ true
  unfolding propose
  queued c b =
      elim (Bool-cases (any_of (λ u. s.state_hash u == s.state_hash (some b)) c.unconfirmed)) [
        | inl old ↦ rw (old, propose) old
        | inr new ↦
            rw (new, propose)
              (any_of-append _ c.unconfirmed (some b) (eq_self (s.state_hash (some b))))
      ]

  known_again :
      (d : Consensus) (b : Bytes)
      → any_of (λ u. s.state_hash u == s.state_hash (some b)) d.unconfirmed ≡ true
      → (has_proposed s d (some b) ≡ true) × (propose s d (some b) ≡ d)
  unfolding propose has_proposed
  known_again d b h = (
    rw h (or-true _ _),
    ap (λ t. if t then d else record d { unconfirmed = d.unconfirmed ++ some b ∷ [] }) h,
  )

  -- A state that is not nil is known once it has been proposed, and proposing it, or another state of
  -- its hash, again changes nothing.
  pub propose-once :
      (c : Consensus) (b b' : Bytes)
      → s.state_hash (some b') ≡ s.state_hash (some b)
      → let d = propose s c (some b) in
        (has_proposed s d (some b') ≡ true) × (propose s d (some b') ≡ d)
  propose-once c b b' e = known_again (propose s c (some b)) b' (rw e (queued c b))
