-- ===== src/Consensus/Collected.antt =====
-- What a round of consensus.go holds of the leader's decision: its commits and its locked state.
pub mod Sending
pub mod Searching
pub mod Handling
pub mod Runs
use bdls.Base.{
  ℕ, ◌+◌, ◌≡◌, refl, sym, ap, subst, ◌∙◌, ◌⊎◌, inl, inr, List, [], ◌∷◌, ◌++◌, none, some, true,
  ◌==◌, ==→eq, All, All-append, All-map, Bool-cases, u64,
}
use bdls.Message.{Bytes, State, SignedProto}
use bdls.Round.{Round, Tuple, new_round}
use bdls.Consensus.State.{Consensus, Setup, write, set_round}
use bdls.Consensus.InOrder.{Frame}

-- The fields of a round that a decision is made of.
pub record View : Type 0 where
  pub commits : List Tuple
  pub locked : State
  pub locked_hash : ℕ

abbrev pub view : Round → View
view r = record { commits = r.commits; locked = r.locked_state; locked_hash = r.locked_state_hash }

-- These fields are the same in every round.
abbrev pub SameViews : (ℕ → Round) → (ℕ → Round) → Type 0
SameViews g h = (p : ℕ) → view (h p) ≡ view (g p)

pub SameViews-refl : (g : ℕ → Round) → SameViews g g
SameViews-refl g p = refl

pub SameViews-write :
    (g : ℕ → Round) (p : ℕ) (r : Round) → view r ≡ view (g p) → SameViews g (write g p r)
SameViews-write g p r e q = elim (Bool-cases (p == q)) [
  | inl same ↦ rw same (e ∙ ap (λ (k : ℕ). view (g k)) (==→eq p q same))
  | inr other ↦ rw other refl
]

module _ (s : Setup) where
  -- The envelope has been decoded from some bytes.
  abbrev pub Read : SignedProto → Type 0
  Read signed = (bts : Bytes) × (s.lib.unmarshal_signed bts ≡ some signed)

  -- The commits are of one height and for valid states, and were received, and the hash of the
  -- locked state is its own, or that of no state yet.
  pub record Sound (height : ℕ) (v : View) : Type 0 where
    pub of_height : All (λ (t : Tuple). t.message.height ≡ height) v.commits
    pub valid : All (λ (t : Tuple). s.state_validate t.message.state ≡ true) v.commits
    pub read : All (λ (t : Tuple). Read t.signed) v.commits
    pub hashed : (v.locked_hash ≡ s.state_hash v.locked) ⊎ ((v.locked ≡ none) × (v.locked_hash ≡ 0))

  abbrev pub SoundAt : ℕ → (ℕ → Round) → ℕ → Type 0
  SoundAt height heap p = Sound height (view (heap p))

  -- So it is in the current round and in those of the list, for the next height.
  abbrev pub Collected : Consensus → Type 0
  Collected c =
      SoundAt (u64 (c.latest_height + 1)) c.heap c.current_round
      × All (SoundAt (u64 (c.latest_height + 1)) c.heap) c.rounds

  pub new_round-Sound : (height n : ℕ) → Sound height (view (new_round n))
  unfolding new_round
  new_round-Sound height n = record {
    of_height = tt;
    valid = tt;
    read = tt;
    hashed = inr (refl, refl);
  }

  pub Collected-still :
      (c d : Consensus) → Frame c d → SameViews c.heap d.heap → Collected c → Collected d
  Collected-still c d f v (now, listed) =
      let height = u64 (d.latest_height + 1) in
      let same = ap (λ (h : ℕ). u64 (h + 1)) f.same_height in
      let move : (p : ℕ) → SoundAt (u64 (c.latest_height + 1)) c.heap p → SoundAt height d.heap p =
        λ p x.
          subst (Sound height) (sym (v p)) (subst (λ (h : ℕ). SoundAt h c.heap p) (sym same) x) in
      (
        subst (SoundAt height d.heap) (sym f.same_current) (move c.current_round now),
        subst (All (SoundAt height d.heap)) (sym f.same_rounds) (
            All-map (SoundAt (u64 (c.latest_height + 1)) c.heap) (SoundAt height d.heap) c.rounds
              move listed),
      )

  -- Other rounds with the same views.
  pub Collected-views :
      (c : Consensus) (heap : ℕ → Round)
      → SameViews c.heap heap
      → Collected c
      → Collected (record c { heap = heap })
  Collected-views c heap v (now, listed) =
      let height = u64 (c.latest_height + 1) in
      let move : (p : ℕ) → SoundAt height c.heap p → SoundAt height heap p =
        λ p x. subst (Sound height) (sym (v p)) x in
      (
        move c.current_round now,
        All-map (SoundAt height c.heap) (SoundAt height heap) c.rounds move listed,
      )

  write-Sound :
      (height : ℕ) (heap : ℕ → Round) (p : ℕ) (r : Round) (q : ℕ)
      → Sound height (view r)
      → SoundAt height heap q
      → SoundAt height (write heap p r) q
  write-Sound height heap p r q new old = elim (Bool-cases (p == q)) [
    | inl same ↦ rw same new
    | inr other ↦ rw other old
  ]

  -- A round that is written and is sound itself.
  pub Collected-write :
      (c : Consensus) (p : ℕ) (r : Round)
      → Sound (u64 (c.latest_height + 1)) (view r)
      → Collected c
      → Collected (set_round c p r)
  Collected-write c p r new (now, listed) =
      let height = u64 (c.latest_height + 1) in
      (
        write-Sound height c.heap p r c.current_round new now,
        All-map (SoundAt height c.heap) (SoundAt height (write c.heap p r)) c.rounds
            (λ q. write-Sound height c.heap p r q new) listed,
      )
