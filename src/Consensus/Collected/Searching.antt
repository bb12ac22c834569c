-- ===== src/Consensus/Collected/Searching.antt =====
-- The list of rounds of consensus.go, and the commits and locked states in it.
use bdls.Base.{
  ℕ, ◌+◌, ◌≡◌, ◌∙◌, refl, sym, subst, List, [], ◌∷◌, Option, none, some, Bool, true, false, ltb,
  ◌==◌, eq_self, if_cases, Bool-cases, inl, inr, All, All-map, Outcome, ok, err, panic, Ensures,
  u64,
}
use bdls.Message.{State}
use bdls.Round.{
  Round, Tuple, new_round, swap_remove, remove_round_change, find_round_change, num_round_changes,
}
use bdls.Consensus.State.{Consensus, Setup, write}
use bdls.Consensus.Rounds.{Search, keep, search_round, get_round, switch_round, height_sync}
use bdls.Consensus.Handlers.{Scan, prepend, drop_message, scan_one, scan_rounds}
use bdls.Consensus.Collected.{
  view, SameViews, SameViews-refl, SameViews-write, SoundAt, Collected, new_round-Sound,
}

-- A search gives references of the list, or a new one.
abbrev Found {κ} : (ℕ → Type κ) → Search → Type κ
Found P found = All P found.refs × P found.ref

keep-Found {κ} :
    (P : ℕ → Type κ) (purge : Bool) (p : ℕ) (found : Search)
    → P p
    → Found P found
    → Found P (keep purge p found)
keep-Found P true p found h f = f
keep-Found P false p found h f = ((h, f.0), f.1)

keep-is_new : (purge : Bool) (p : ℕ) (found : Search) → (keep purge p found).is_new ≡ found.is_new
keep-is_new true p found = refl
keep-is_new false p found = refl

search_round-Found {κ} :
    (P : ℕ → Type κ) (heap : ℕ → Round) (fresh idx : ℕ) (purge : Bool) (ps : List ℕ)
    → ((search_round heap fresh idx purge ps).is_new ≡ true → P fresh)
    → All P ps
    → Found P (search_round heap fresh idx purge ps)
unfolding search_round
search_round-Found P heap fresh idx purge [] new a = ((new refl, tt), new refl)
search_round-Found P heap fresh idx purge (p ∷ ps) new a =
    if_cases (λ (found : Search). (found.is_new ≡ true → P fresh) → Found P found)
      (ltb (heap p).round_number idx) _ _
      (λ _ n. keep-Found P purge p (search_round heap fresh idx purge ps) a.0 (
        search_round-Found P heap fresh idx purge ps
          (λ e. n (keep-is_new purge p (search_round heap fresh idx purge ps) ∙ e)) a.1))
      (λ _.
        if_cases (λ (found : Search). (found.is_new ≡ true → P fresh) → Found P found)
          (ltb idx (heap p).round_number) _ _ (λ _ n. ((n refl, a), n refl)) (λ _ n. (a, a.0)))
      new

module _ (s : Setup) where
  write-new_round :
      (height : ℕ) (heap : ℕ → Round) (n idx q : ℕ)
      → SoundAt s height heap q
      → SoundAt s height (write heap n (new_round idx)) q
  write-new_round height heap n idx q h = elim (Bool-cases (n == q)) [
    | inl same ↦ rw same (new_round-Sound s height idx)
    | inr other ↦ rw other h
  ]

  fresh-Sound :
      (height : ℕ) (heap : ℕ → Round) (n idx : ℕ)
      → SoundAt s height (write heap n (new_round idx)) n
  fresh-Sound height heap n idx = rw (eq_self n) (new_round-Sound s height idx)

  -- A round that is looked up is sound as those of the list are, and so is the list that is left.
  pub get_round-Collected :
      (c : Consensus) (idx : ℕ) (purge : Bool)
      → let height = u64 (c.latest_height + 1) in
        let d = get_round c idx purge in
        All (SoundAt s height c.heap) c.rounds
        → All (SoundAt s height d.0.heap) d.0.rounds
          × SoundAt s height d.0.heap d.1
          × ((p : ℕ) → SoundAt s height c.heap p → SoundAt s height d.0.heap p)
          × (d.0.latest_height ≡ c.latest_height)
          × (d.0.current_round ≡ c.current_round)
  unfolding get_round
  get_round-Collected c idx purge a =
      let height = u64 (c.latest_height + 1) in
      let found = search_round c.heap c.next_ref idx purge c.rounds in
      elim (Bool-cases found.is_new) [
        | inl new ↦
            let heap = write c.heap c.next_ref (new_round idx) in
            let old = λ (p : ℕ) (h : SoundAt s height c.heap p).
              write-new_round height c.heap c.next_ref idx p h in
            let f =
              search_round-Found (SoundAt s height heap) c.heap c.next_ref idx purge c.rounds
                (λ _. fresh-Sound height c.heap c.next_ref idx)
                (All-map (SoundAt s height c.heap) (SoundAt s height heap) c.rounds old a) in
            rw new (f.0, f.1, old, refl, refl)
        | inr kept ↦
            let f =
              search_round-Found (SoundAt s height c.heap) c.heap c.next_ref idx purge c.rounds
                (λ e. absurd (cc (e, kept))) a in
            rw kept (f.0, f.1, λ p h. h, refl, refl)
      ]

  pub switch_round-Collected :
      (c : Consensus) (round : ℕ) → Collected s c → Collected s (switch_round c round)
  unfolding switch_round
  switch_round-Collected c round (now, listed) =
      let (left, hit, old, same, current) = get_round-Collected c round true listed in
      let move = λ (h : ℕ). SoundAt s (u64 (h + 1)) (get_round c round true).0.heap in
      (
        subst (λ (h : ℕ). move h (get_round c round true).1) (sym same) hit,
        subst (λ (h : ℕ). All (move h) (get_round c round true).0.rounds) (sym same) left,
      )

  -- Behind heightSync the only round is a new one.
  pub height_sync-Collected :
      (c : Consensus) (height round : ℕ) (st : State) → Collected s (height_sync c height round st)
  unfolding height_sync switch_round get_round search_round
  height_sync-Collected c height round st =
      let fresh = new_round-Sound s (u64 (height + 1)) 0 in
      rw (eq_self c.next_ref) (fresh, (fresh, tt))

-- What the loop over the rounds leaves: the views, and only references that were there.
pub record Left (P : ℕ → Type 0) (heap : ℕ → Round) (scan : Scan) : Type 0 where
  pub same_views : SameViews heap scan.heap
  pub listed : All P scan.refs

prepend-Left :
    (P : ℕ → Type 0) (heap : ℕ → Round) (p : ℕ) (o : Outcome Scan)
    → P p
    → Ensures (Left P heap) o
    → Ensures (Left P heap) (prepend p o)
prepend-Left P heap p (ok r) h l = record { same_views = l.same_views; listed = (h, l.listed) }
prepend-Left P heap p (err e) h l = tt
prepend-Left P heap p panic h l = tt

Left-later :
    (P : ℕ → Type 0) (heap h : ℕ → Round) (o : Outcome Scan)
    → SameViews heap h
    → Ensures (Left P h) o
    → Ensures (Left P heap) o
Left-later P heap h (ok r) v l = record {
  same_views = λ p. l.same_views p ∙ v p;
  listed = l.listed;
}
Left-later P heap h (err e) v l = tt
Left-later P heap h panic v l = tt

-- A message of a round goes, its view stays.
removed-view : (r : Round) (idx : ℕ) → Ensures (λ q. view q ≡ view r) (remove_round_change r idx)
unfolding remove_round_change
removed-view r idx = from (swap_remove r.round_changes idx)
  where
    from :
        (o : Option (List Tuple))
        → Ensures
            (λ q. view q ≡ view r)
            (elim o [ none ↦ panic | some ts ↦ ok (record r { round_changes = ts }) ])
    from none = tt
    from (some ts) = refl

module _ (P : ℕ → Type 0) (cur round : ℕ) where
  drop_message-Left :
      (heap : ℕ → Round) (p : ℕ) (again : (ℕ → Round) → Outcome Scan) (removed : Outcome Round)
      → P p
      → ((h : ℕ → Round) → Ensures (Left P h) (again h))
      → Ensures (λ q. view q ≡ view (heap p)) removed
      → Ensures (Left P heap) (drop_message heap p again removed)
  unfolding drop_message
  drop_message-Left heap p again (ok r) h good v =
      let later =
        Left-later P heap (write heap p r) (again (write heap p r)) (SameViews-write heap p r v)
          (good (write heap p r)) in
      if_cases (Ensures (Left P heap)) (num_round_changes r == 0) _ _ (λ _. later)
        (λ _. prepend-Left P heap p (again (write heap p r)) h later)
  drop_message-Left heap p again (err x) h good v = tt
  drop_message-Left heap p again panic h good v = tt

  scan_one-Left :
      (heap : ℕ → Round) (p : ℕ) (ps : List ℕ) (again : (ℕ → Round) → Outcome Scan) (at : Option ℕ)
      → P p
      → All P ps
      → ((h : ℕ → Round) → Ensures (Left P h) (again h))
      → Ensures (Left P heap) (scan_one cur round heap p ps again at)
  unfolding scan_one
  scan_one-Left heap p ps again none h a good = prepend-Left P heap p (again heap) h (good heap)
  scan_one-Left heap p ps again (some idx) h a good =
      let onward = prepend-Left P heap p (again heap) h (good heap) in
      if_cases (Ensures (Left P heap)) (round == cur) _ _ (λ _. onward)
        (λ _.
          if_cases (Ensures (Left P heap)) (ltb round (heap p).round_number) _ _
            (λ _. record { same_views = SameViews-refl heap; listed = (h, a) })
            (λ _.
              if_cases (Ensures (Left P heap)) (ltb (heap p).round_number round) _ _
                (λ _.
                  drop_message-Left heap p again (remove_round_change (heap p) idx) h good
                    (removed-view (heap p) idx))
                (λ _. onward)))

  pub scan_rounds-Left :
      (x y : ℕ) (heap : ℕ → Round) (ps : List ℕ)
      → All P ps
      → Ensures (Left P heap) (scan_rounds cur round x y heap ps)
  unfolding scan_rounds
  scan_rounds-Left x y heap [] a = record { same_views = SameViews-refl heap; listed = tt }
  scan_rounds-Left x y heap (p ∷ ps) a =
      scan_one-Left heap p ps (λ h. scan_rounds cur round x y h ps) (find_round_change (heap p) x y)
        a.0 a.1 (λ h. scan_rounds-Left x y h ps a.1)
