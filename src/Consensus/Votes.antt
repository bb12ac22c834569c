-- ===== src/Consensus/Votes.antt =====
-- The messages that the rounds of consensus.go hold, and the operations of a round on them.
pub mod Sending
pub mod Scanning
pub mod Handling
pub mod Steps
use bdls.Base.{
  ℕ, zero, suc, subst, ◌+◌, ◌-◌, ◌≤◌, ◌<◌, ◌≡◌, refl, sym, ap, ◌∙◌, List, [], ◌∷◌, ◌++◌, Option,
  none, some, Bool, true, false, arith, ltb, ◌==◌, ◌&&◌, if◌then◌else◌, length, get_elem?, set,
  take, any_of, count_if, All, All-append, if_cases, Bool-cases, Option-cases, inl, inr, Outcome,
  ok, panic, Ensures,
}
use mathlib.Core.Option.{some-injective}
use bdls.Message.{State, Message, MessageType, SignedProto}
use bdls.Message.Signing.{verify}
use bdls.Round.{
  Round, Tuple, new_round, same_signer, add_round_change, swap_remove, remove_round_change,
  add_commit, insert_by_hash, sort_by_hash, max_of_sorted, get_max_proposed,
}
use bdls.Round.Sorted.{sort_by_hash-All, count_if-sort_by_hash}
use bdls.Consensus.State.{Consensus, Setup, write}
use bdls.Consensus.Checks.{signer_of, is_participant, is_round_change, is_commit}

-- A recorded message: signed by a participant, decoded rightly, of the kind and the round that it is
-- recorded under, with the hash of its state.
pub record Genuine (s : Setup) (is_kind : MessageType → Bool) (round : ℕ) (t : Tuple) : Type 0 where
  pub known : is_participant s (signer_of s t.signed) ≡ true
  pub signed_by : verify s.lib t.signed ≡ true
  pub decodes : s.lib.unmarshal_message t.signed.message ≡ some t.message
  pub kind : is_kind t.message.kind ≡ true
  pub at_round : t.message.round ≡ round
  pub hashed : t.state_hash ≡ s.state_hash t.message.state

-- How many of the messages have been signed with a key.
abbrev pub signed_with : ℕ → ℕ → List Tuple → ℕ
signed_with x y = count_if (same_signer x y)

-- No key has signed two of the messages.
abbrev pub NoRepeat : List Tuple → Type 0
NoRepeat ts = (x y : ℕ) → signed_with x y ts ≤ 1

abbrev pub KeptMessages : Setup → ℕ → List Tuple → List Tuple → Type 0
KeptMessages s number asked commits =
    NoRepeat asked
    × All (Genuine s is_round_change number) asked
    × NoRepeat commits
    × All (Genuine s is_commit number) commits

abbrev pub Kept : Setup → Round → Type 0
Kept s r = KeptMessages s r.round_number r.round_changes r.commits

count_if-append :
    (q : Tuple → Bool) (ts us : List Tuple) → count_if q (ts ++ us) ≡ count_if q ts + count_if q us
count_if-append q [] us = omega arith
count_if-append q (t ∷ ts) us = ground (arith, count_if-append q ts us)

count_if-none : (q : Tuple → Bool) (ts : List Tuple) → any_of q ts ≡ false → count_if q ts ≡ 0
count_if-none q [] h = refl
count_if-none q (t ∷ ts) h = ground (arith, count_if-none q ts)

-- A message of a new signer.
NoRepeat-append :
    (ts : List Tuple) (t : Tuple)
    → any_of (same_signer t.signed.x t.signed.y) ts ≡ false
    → NoRepeat ts
    → NoRepeat (ts ++ t ∷ [])
NoRepeat-append ts t new n x y = elim (Bool-cases (same_signer x y t)) [
  | inl same ↦
      let ex : t.signed.x ≡ x = ground (arith, same) in
      let ey : t.signed.y ≡ y = ground (arith, same) in
      let none_yet : signed_with x y ts ≡ 0 =
        subst (λ k. signed_with k y ts ≡ 0) ex
          (subst (λ k. signed_with t.signed.x k ts ≡ 0) ey (count_if-none _ ts new)) in
      ground (arith, none_yet, count_if-append (same_signer x y) ts (t ∷ []))
  | inr other ↦ ground (arith, other, n x y, count_if-append (same_signer x y) ts (t ∷ []))
]

abbrev one_if : Bool → ℕ
one_if true = 1
one_if false = 0

-- Swapping the last message to the front of a cut list.
count_if-last :
    (q : Tuple → Bool) (t : Tuple) (ts : List Tuple) (final : Tuple)
    → get_elem? (t ∷ ts) (length ts) ≡ some final
    → count_if q (take (length ts) (t ∷ ts)) + one_if (q final) ≡ count_if q (t ∷ ts)
count_if-last q t [] final h =
    let same : one_if (q t) ≡ one_if (q final) =
      ap (λ (v : Tuple). one_if (q v)) (some-injective t final h) in
    grind (arith, same)
count_if-last q t (u ∷ ts) final h = ground (arith, count_if-last q u ts final h)

count_if-swap :
    (q : Tuple → Bool) (t : Tuple) (ts : List Tuple) (idx : ℕ) (final : Tuple)
    → get_elem? (t ∷ ts) (length ts) ≡ some final
    → count_if q (take (length ts) (set (t ∷ ts) idx final)) ≤ count_if q (t ∷ ts)
count_if-swap q t [] idx final h = omega arith
count_if-swap q t (u ∷ ts) zero final h = ground (arith, count_if-last q u ts final h)
count_if-swap q t (u ∷ ts) (suc i) final h = ground (arith, count_if-swap q u ts i final h)

All-take {κ} : (P : Tuple → Type κ) (n : ℕ) (ts : List Tuple) → All P ts → All P (take n ts)
All-take P zero ts a = tt
All-take P (suc n) [] a = tt
All-take P (suc n) (t ∷ ts) a = (a.0, All-take P n ts a.1)

All-set {κ} :
    (P : Tuple → Type κ) (ts : List Tuple) (i : ℕ) (v : Tuple) → All P ts → P v → All P (set ts i v)
All-set P [] i v a p = tt
All-set P (t ∷ ts) zero v a p = (p, a.1)
All-set P (t ∷ ts) (suc i) v a p = (a.0, All-set P ts i v a.1 p)

All-get_elem? {κ} :
    (P : Tuple → Type κ) (ts : List Tuple) (i : ℕ) (v : Tuple)
    → All P ts
    → get_elem? ts i ≡ some v
    → P v
All-get_elem? P [] i v a h = absurd (cc h)
All-get_elem? P (t ∷ ts) zero v a h = subst P (some-injective _ _ h) a.0
All-get_elem? P (t ∷ ts) (suc i) v a h = All-get_elem? P ts i v a.1 h

-- `swap_remove` with the index of the last message at hand.
abbrev swap_at : List Tuple → ℕ → ℕ → Option (List Tuple)
swap_at ts idx n = elim (get_elem? ts n) [
  | none ↦ none
  | some final ↦ if ltb idx (length ts) then some (take n (set ts idx final)) else none
]

swap_remove-swap_at :
    (t : Tuple) (ts : List Tuple) (idx : ℕ)
    → swap_remove (t ∷ ts) idx ≡ swap_at (t ∷ ts) idx (length ts)
unfolding swap_remove
swap_remove-swap_at t ts idx =
    let last : suc (length ts) - 1 ≡ length ts = omega arith in ap (swap_at (t ∷ ts) idx) last

module _ (s : Setup) where
  -- What `RemoveRoundChange` leaves.
  pub remove_round_change-Kept :
      (r : Round) (idx : ℕ) → Kept s r → Ensures (Kept s) (remove_round_change r idx)
  unfolding remove_round_change swap_remove
  remove_round_change-Kept r idx k = from r.round_changes k.0 k.1
    where
      put : Option (List Tuple) → Outcome Round
      put o = elim o [ none ↦ panic | some ts ↦ ok (record r { round_changes = ts }) ]

      last :
          (t : Tuple) (ts : List Tuple)
          → NoRepeat (t ∷ ts)
          → All (Genuine s is_round_change r.round_number) (t ∷ ts)
          → (o : Option Tuple) → get_elem? (t ∷ ts) (length ts) ≡ o
          → Ensures (Kept s) (
              put (elim o [
                | none ↦ none
                | some final ↦
                    if ltb idx (suc (length ts))
                    then some (take (length ts) (set (t ∷ ts) idx final))
                    else none
              ]))
      last t ts n a none found = tt
      last t ts n a (some final) found =
          if_cases (λ o. Ensures (Kept s) (put o)) (ltb idx (suc (length ts))) _ _
            (λ _. (
              (λ x y. omega (arith, n x y, count_if-swap (same_signer x y) t ts idx final found)),
              All-take _ (length ts) (set (t ∷ ts) idx final) (
                  All-set _ (t ∷ ts) idx final a (
                    All-get_elem? (Genuine s is_round_change r.round_number) (t ∷ ts) (length ts)
                      final a found)),
              k.2,
              k.3,
            ))
            (λ _. tt)

      from :
          (ts : List Tuple)
          → NoRepeat ts
          → All (Genuine s is_round_change r.round_number) ts
          → Ensures (Kept s) (put (swap_remove ts idx))
      from [] n a = tt
      from (t ∷ ts) n a =
          rw (swap_remove-swap_at t ts idx) (last t ts n a (get_elem? (t ∷ ts) (length ts)) refl)

  pub add_round_change-Kept :
      (r : Round) (sp : SignedProto) (m : Message)
      → Kept s r
      → Genuine s is_round_change r.round_number
          (record { state_hash = s.state_hash m.state; message = m; signed = sp })
      → Kept s (add_round_change s.state_hash r sp m).0
  unfolding add_round_change
  add_round_change-Kept r sp m k g =
      if_cases (λ (q : Round × Bool). Kept s q.0) (any_of (same_signer sp.x sp.y) r.round_changes) _
        _ (λ _. k)
        (λ new. (
          NoRepeat-append r.round_changes
              (record { state_hash = s.state_hash m.state; message = m; signed = sp }) new k.0,
          All-append _ r.round_changes (_ ∷ []) k.1 (g, tt),
          k.2,
          k.3,
        ))

  pub add_commit-Kept :
      (r : Round) (sp : SignedProto) (m : Message)
      → Kept s r
      → Genuine s is_commit r.round_number
          (record { state_hash = s.state_hash m.state; message = m; signed = sp })
      → Kept s (add_commit s.state_hash r sp m).0
  unfolding add_commit
  add_commit-Kept r sp m k g =
      if_cases (λ (q : Round × Bool). Kept s q.0) (any_of (same_signer sp.x sp.y) r.commits) _ _
        (λ _. k)
        (λ new. (
          k.0,
          k.1,
          NoRepeat-append r.commits
              (record { state_hash = s.state_hash m.state; message = m; signed = sp }) new k.2,
          All-append _ r.commits (_ ∷ []) k.3 (g, tt),
        ))

  max_of_sorted-Kept :
      (r : Round) (ts : List Tuple)
      → Kept s r
      → NoRepeat ts
      → All (Genuine s is_round_change r.round_number) ts
      → Kept s (max_of_sorted r ts).0
  unfolding max_of_sorted
  max_of_sorted-Kept r [] k n a = k
  max_of_sorted-Kept r (t ∷ ts) k n a = (n, a, k.2, k.3)

  pub get_max_proposed-Kept : (r : Round) → Kept s r → Kept s (get_max_proposed r).0
  unfolding get_max_proposed
  get_max_proposed-Kept r k =
      max_of_sorted-Kept r (sort_by_hash r.round_changes) k
        (λ x y. omega (arith, k.0 x y, count_if-sort_by_hash (same_signer x y) r.round_changes))
        (sort_by_hash-All _ r.round_changes k.1)

  pub new_round-Kept : (n : ℕ) → Kept s (new_round n)
  unfolding new_round
  new_round-Kept n = ((λ x y. omega arith), tt, (λ x y. omega arith), tt)

  -- All rounds that a reference can point to.
  abbrev pub HeapKept : (ℕ → Round) → Type 0
  HeapKept heap = (p : ℕ) → Kept s (heap p)

  abbrev pub AllKept : Consensus → Type 0
  AllKept c = HeapKept c.heap

  pub write-Kept :
      (heap : ℕ → Round) (p : ℕ) (r : Round) → HeapKept heap → Kept s r → HeapKept (write heap p r)
  write-Kept heap p r h k q = if_cases (Kept s) (p == q) r (heap q) (λ _. k) (λ _. h q)
