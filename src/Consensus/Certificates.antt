-- ===== src/Consensus/Certificates.antt =====
-- The proofs in <lock>, <select> and <decide> messages of consensus.go, as certificates.
use bdls.Base.{
  ℕ, ◌≤◌, ◌≡◌, refl, ap, subst, List, [], ◌∷◌, Option, some, Bool, true, false, inl, inr, arith,
  Outcome, ok, ◌>>=◌, ◌>>◌, require, >>=-eq-ok, >>-eq-ok, Outcome-cases, ok-injective, ltb, ◌==◌,
  ==→eq, length, All, In, Distinct,
}
use bdls.Base.Assoc.{
  insert, keys, keys_if, Entries, Entries-insert, Entries-keys_if, Distinct-insert,
  Distinct-keys_if, count_if-values,
}
use bdls.Errors.{Error}
use bdls.Message.{State, Message, MessageType, SignedProto}
use bdls.Consensus.Verify.{lock_proof, select_proof, decide_proof}
use bdls.Message.Signing.{verify}
use bdls.Consensus.State.{Setup, quorum}
use bdls.Consensus.Checks.{
  as_unknown, decoded, collect, signer_of, is_participant, verify_signed, votes, is_round_change,
  is_commit,
}

-- A signed message that a participant vouches for: it is among `proofs`, its signature holds, and
-- it says what the certificate wants.
pub record Vote (s : Setup) (is_kind : MessageType → Bool) (height round hash : ℕ)
    (proofs : List SignedProto) (id : ℕ) : Type 0 where
  pub proof : SignedProto
  pub content : Message
  pub among : In proof proofs
  pub signed_by : signer_of s proof ≡ id
  pub known : is_participant s id ≡ true
  pub genuine : verify s.lib proof ≡ true
  pub decodes : s.lib.unmarshal_message proof.message ≡ some content
  pub kind : is_kind content.kind ≡ true
  pub at_height : content.height ≡ height
  pub at_round : content.round ≡ round
  pub for_state : s.state_hash content.state ≡ hash

-- At least 2t + 1 different participants vouch for one hash at one height and round.
pub record Certificate (s : Setup) (is_kind : MessageType → Bool) (height round hash : ℕ)
    (proofs : List SignedProto) : Type 0 where
  pub ids : List ℕ
  pub distinct : Distinct ids
  pub enough : quorum s ≤ length ids
  pub all_votes : All (Vote s is_kind height round hash proofs) ids

module _ (check : SignedProto → Outcome State) (signer : SignedProto → ℕ) where
  -- Every entry that the loop over the proofs makes comes from a proof that passed.
  pub collect-Entries {κ} :
      (P : ℕ → State → Type κ) (ps : List SignedProto) (acc rcs : List (ℕ × State))
      → ((p : SignedProto) (st : State) → In p ps → check p ≡ ok st → P (signer p) st)
      → collect check signer ps acc ≡ ok rcs
      → Entries P acc
      → Entries P rcs
  unfolding collect
  collect-Entries P [] acc rcs f h e = subst (Entries P) (ok-injective h) e
  collect-Entries P (p ∷ ps) acc rcs f h e = elim (Outcome-cases (check p)) [
    | inl (st, q) ↦
        collect-Entries P ps (insert (signer p) st acc) rcs (λ r st' i. f r st' (inr i))
          (rw (q, collect) at h) (Entries-insert P (signer p) st acc (f p st (inl refl) q) e)
    | inr (inl (x, q)) ↦ absurd (cc (rw (q, collect) at h))
    | inr (inr q) ↦ absurd (cc (rw (q, collect) at h))
  ]

  pub collect-Distinct :
      (ps : List SignedProto) (acc rcs : List (ℕ × State))
      → collect check signer ps acc ≡ ok rcs
      → Distinct (keys acc)
      → Distinct (keys rcs)
  unfolding collect
  collect-Distinct [] acc rcs h d = subst (λ m. Distinct (keys m)) (ok-injective h) d
  collect-Distinct (p ∷ ps) acc rcs h d = elim (Outcome-cases (check p)) [
    | inl (st, q) ↦
        collect-Distinct ps (insert (signer p) st acc) rcs (rw (q, collect) at h)
          (Distinct-insert (signer p) st acc d)
    | inr (inl (x, q)) ↦ absurd (cc (rw (q, collect) at h))
    | inr (inr q) ↦ absurd (cc (rw (q, collect) at h))
  ]

pub as_unknown-eq-ok {ℓ} :
    {A : Type ℓ} (e : Error) (m : Outcome A) {a : A} → as_unknown e m ≡ ok a → m ≡ ok a
as_unknown-eq-ok e m h = ground arith

decoded-eq-ok {ℓ} : {A : Type ℓ} (o : Option A) {a : A} → decoded o ≡ ok a → o ≡ some a
decoded-eq-ok o h = ground arith

module _ (s : Setup) where
  -- What `verifyMessage` establishes.
  pub verify_signed-eq-ok :
      (sp : SignedProto) {m : Message}
      → verify_signed s sp ≡ ok m
      → (is_participant s (signer_of s sp) ≡ true)
        × (verify s.lib sp ≡ true)
        × (s.lib.unmarshal_message sp.message ≡ some m)
  unfolding verify_signed
  verify_signed-eq-ok sp h =
      let (known, h1) = >>-eq-ok _ _ _ h in
      let (genuine, h2) = >>-eq-ok _ _ _ h1 in (known, genuine, decoded-eq-ok _ h2)

  -- The checks with which the three loops over proofs begin make a vote of a proof, if what
  -- follows them gives back the state of the proof.
  checked-Vote :
      (is_kind : MessageType → Bool) (e0 e1 e2 e3 : Error) (rest : Message → Outcome State)
      (m : Message) (ps : List SignedProto) (p : SignedProto) (st : State)
      → ((c : Message) → rest c ≡ ok st → c.state ≡ st)
      → In p ps
      → (as_unknown e0 (verify_signed s p) >>= λ c.
          require (is_kind c.kind) e1
          >> (require (c.height == m.height) e2 >> (require (c.round == m.round) e3 >> rest c)))
        ≡ ok st
      → Vote s is_kind m.height m.round (s.state_hash st) ps (signer_of s p)
  checked-Vote is_kind e0 e1 e2 e3 rest m ps p st state among h =
      let (content, h0, h1) = >>=-eq-ok _ _ h in
      let (known, genuine, decodes) = verify_signed-eq-ok p (as_unknown-eq-ok _ _ h0) in
      let (kind, h2) = >>-eq-ok _ _ _ h1 in
      let (at_height, h3) = >>-eq-ok _ _ _ h2 in
      let (at_round, h4) = >>-eq-ok _ _ _ h3 in
      record {
        proof = p;
        content = content;
        among = among;
        signed_by = refl;
        known = known;
        genuine = genuine;
        decodes = decodes;
        kind = kind;
        at_height = ==→eq _ _ at_height;
        at_round = ==→eq _ _ at_round;
        for_state = ap s.state_hash (state content h4);
      }

  -- A proof that passes the loop of `verifyLockMessage` is a vote for its own state.
  pub lock_proof-Vote :
      (m : Message) (ps : List SignedProto) (p : SignedProto) (st : State)
      → In p ps
      → lock_proof s m p ≡ ok st
      → Vote s is_round_change m.height m.round (s.state_hash st) ps (signer_of s p)
  unfolding lock_proof
  lock_proof-Vote m ps p st = checked-Vote _ _ _ _ _ _ m ps p st λ c h. ground arith

  -- A proof that passes the loop of `verifySelectMessage` is a vote for its own state.
  pub select_proof-Vote :
      (m : Message) (ps : List SignedProto) (p : SignedProto) (st : State)
      → In p ps
      → select_proof s m p ≡ ok st
      → Vote s is_round_change m.height m.round (s.state_hash st) ps (signer_of s p)
  unfolding select_proof
  select_proof-Vote m ps p st = checked-Vote _ _ _ _ _ _ m ps p st λ c h. ground arith

  -- A proof that passes the loop of `verifyDecideMessage` is a vote for its own state.
  pub decide_proof-Vote :
      (m : Message) (ps : List SignedProto) (p : SignedProto) (st : State)
      → In p ps
      → decide_proof s m p ≡ ok st
      → Vote s is_commit m.height m.round (s.state_hash st) ps (signer_of s p)
  unfolding decide_proof
  decide_proof-Vote m ps p st = checked-Vote _ _ _ _ _ _ m ps p st λ c h. ground arith

  -- Enough votes in the map that a loop makes are a certificate.
  pub collect-Certificate :
      (is_kind : MessageType → Bool) (height round : ℕ) (check : SignedProto → Outcome State)
      (ps : List SignedProto) (rcs : List (ℕ × State)) (st : State)
      → ((p : SignedProto) (v : State)
          → In p ps
          → check p ≡ ok v
          → Vote s is_kind height round (s.state_hash v) ps (signer_of s p))
      → collect check (signer_of s) ps [] ≡ ok rcs
      → ltb (votes s st rcs) (quorum s) ≡ false
      → Certificate s is_kind height round (s.state_hash st) ps
  collect-Certificate is_kind height round check ps rcs st f h n = record {
    ids = keys_if for_state rcs;
    distinct = Distinct-keys_if for_state rcs (collect-Distinct check (signer_of s) ps [] rcs h tt);
    enough = ground (arith, count_if-values for_state rcs);
    all_votes =
        Entries-keys_if (λ id v. Vote s is_kind height round (s.state_hash v) ps id)
          (Vote s is_kind height round (s.state_hash st) ps) for_state rcs
          (λ id v vote same. subst (λ h. Vote s is_kind height round h ps id) (==→eq _ _ same) vote)
          (collect-Entries check (signer_of s)
            (λ id v. Vote s is_kind height round (s.state_hash v) ps id) ps [] rcs f h tt);
  }
    where
      for_state : State → Bool
      for_state v = s.state_hash v == s.state_hash st
