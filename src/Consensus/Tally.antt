-- ===== src/Consensus/Tally.antt =====
-- The loop of consensus.go over the proofs of a <decide> message, on commits by different signers.
use bdls.Base.{
  ℕ, ◌*◌, sym, ◌∙◌, ◌+◌, ◌<◌, ◌≡◌, refl, List, [], ◌∷◌, map, Bool, true, false, ◌==◌, ==→eq,
  eq_self, arith, Bool-cases, inl, inr, has, Distinct, All, count_if, Outcome, ok,
}
use bdls.Base.Assoc.{insert, keys, values, has-insert}
use bdls.Message.{State, SignedProto, PublicKey}
use bdls.Message.Axis.{axis_bound, join_axes}
use bdls.Message.Signing.{public_key}
use bdls.Round.{Tuple, same_signer}
use bdls.Consensus.State.{Setup}
use bdls.Consensus.Checks.{collect, signer_of, is_participant, votes}
use bdls.Consensus.Votes.{NoRepeat, signed_with}

abbrev unit_if : Bool → ℕ
unit_if true = 1
unit_if false = 0

-- A new key adds its value.
count-insert :
    (p : State → Bool) (k : ℕ) (v : State) (m : List (ℕ × State))
    → has k (keys m) ≡ false
    → count_if p (values (insert k v m)) ≡ count_if p (values m) + unit_if (p v)
unfolding insert
count-insert p k v [] h = ground arith
count-insert p k v ((j, w) ∷ m) h = ground (arith, count-insert p k v m)

-- A key whose axes are arrays of 32 bytes.
abbrev pub Fixed : PublicKey → Type 0
Fixed k = (k.x < axis_bound) × (k.y < axis_bound)

abbrev pub AllFixed : List Tuple → Type 0
AllFixed = All (λ (t : Tuple). Fixed (public_key t.signed))

module _ (s : Setup) where
  abbrev pub signers : List Tuple → List ℕ
  signers = map (λ (t : Tuple). signer_of s t.signed)

  -- Among the keys of arrays of 32 bytes, the identity of a participant is of one only.
  abbrev pub OneKey : Type 0
  OneKey =
      (k l : PublicKey)
      → Fixed k
      → Fixed l
      → is_participant s (s.pub_key_to_identity k) ≡ true
      → s.pub_key_to_identity k ≡ s.pub_key_to_identity l
      → (k.x ≡ l.x) × (k.y ≡ l.y)

  abbrev pub Known : List Tuple → Type 0
  Known = All (λ (t : Tuple). is_participant s (signer_of s t.signed) ≡ true)

  other_signers :
      OneKey
      → (t : Tuple) (ts : List Tuple) → Fixed (public_key t.signed)
      → AllFixed ts
      → is_participant s (signer_of s t.signed) ≡ true
      → signed_with t.signed.x t.signed.y ts ≡ 0
      → has (signer_of s t.signed) (signers ts) ≡ false
  other_signers one t [] ft fs known h = refl
  other_signers one t (u ∷ ts) ft fs known h =
      elim (Bool-cases (same_signer t.signed.x t.signed.y u)) [
        | inl same ↦ absurd (ground (arith, same))
        | inr other ↦
            let rest = other_signers one t ts ft fs.1 known (ground (arith, other)) in
            elim (Bool-cases (signer_of s t.signed == signer_of s u.signed)) [
              | inl e ↦
                  let (ex, ey) =
                    one (public_key t.signed) (public_key u.signed) ft fs.0 known (==→eq _ _ e) in
                  absurd (ground (arith, ex, ey))
              | inr n ↦ rw (n, rest) refl
            ]
      ]

  NoRepeat-tail : (t : Tuple) (ts : List Tuple) → NoRepeat (t ∷ ts) → NoRepeat ts
  NoRepeat-tail t ts n x y = ground (arith, n x y)

  pub signers-Distinct :
      OneKey → (ts : List Tuple) → AllFixed ts → Known ts → NoRepeat ts → Distinct (signers ts)
  signers-Distinct one [] fs known n = tt
  signers-Distinct one (t ∷ ts) fs known n =
      let alone : signed_with t.signed.x t.signed.y ts ≡ 0 =
        ground (arith, n t.signed.x t.signed.y, eq_self t.signed.x, eq_self t.signed.y) in
      (
        other_signers one t ts fs.0 fs.1 known.0 alone,
        signers-Distinct one ts fs.1 known.1 (NoRepeat-tail t ts n),
      )

  -- None of the signers has an entry yet.
  abbrev New : List (ℕ × State) → List Tuple → Type 0
  New acc = All (λ (t : Tuple). has (signer_of s t.signed) (keys acc) ≡ false)

  New-insert :
      (k : ℕ) (v : State) (acc : List (ℕ × State)) (ts : List Tuple)
      → has k (signers ts) ≡ false
      → New acc ts
      → New (insert k v acc) ts
  New-insert k v acc [] h n = tt
  New-insert k v acc (t ∷ ts) h n =
      let a = signer_of s t.signed in
      (ground (arith, has-insert a k v acc, n.0), New-insert k v acc ts (ground arith) n.1)

  -- Where each proof passes with its state, so does the loop, and each signer has its vote.
  pub collect-votes :
      (check : SignedProto → Outcome State) (st : State) (ts : List Tuple) (acc : List (ℕ × State))
      → All (λ (t : Tuple). check t.signed ≡ ok t.message.state) ts
      → Distinct (signers ts)
      → New acc ts
      → (rcs : List (ℕ × State)) × (collect check
            (signer_of s)
            (map (λ (t : Tuple). t.signed) ts)
            acc
          ≡ ok rcs)
        × (votes s st rcs
            ≡ votes s st acc
              + count_if (λ (t : Tuple). s.state_hash t.message.state == s.state_hash st) ts)
  unfolding collect
  collect-votes check st [] acc pass d n = (acc, refl, omega arith)
  collect-votes check st (t ∷ ts) acc pass d n =
      let k = signer_of s t.signed in
      let next = insert k t.message.state acc in
      let (rcs, e, count) =
        collect-votes check st ts next pass.1 d.1 (New-insert k t.message.state acc ts d.0 n.1) in
      let one = count-insert (λ v. s.state_hash v == s.state_hash st) k t.message.state acc n.0 in
      (rcs, rw (pass.0, collect) e, ground (arith, count, one))

-- The default identity is of one key.
pub join_axes-OneKey :
    (s : Setup) → ((k : PublicKey) → s.pub_key_to_identity k ≡ join_axes k.x k.y) → OneKey s
unfolding join_axes
join_axes-OneKey s default k l fk fl known e =
    let same : k.x * axis_bound + k.y ≡ l.x * axis_bound + l.y = sym (default k) ∙ e ∙ default l in
    (omega (arith, same, fk.0, fk.1, fl.0, fl.1), omega (arith, same, fk.0, fk.1, fl.0, fl.1))
