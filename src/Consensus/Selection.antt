-- ===== src/Consensus/Selection.antt =====
-- The check of <select> messages, verifySelectMessage of consensus.go.
use bdls.Base.{
  ℕ, suc, ◌+◌, ◌≤◌, ◌<◌, ◌≡◌, refl, sym, ap, ◌∙◌, List, [], ◌∷◌, none, some, Bool, true, ◌&&◌, ◌||◌,
  arith, ok, require, ◌>>◌, ok-injective, >>=-eq-ok, >>-eq-ok, require-eq-ok, ltb, ltb→lt, not-ltb,
  ◌==◌, ==→eq, if◌then◌else◌, length, count_if, All, Distinct, is_some, u64, has, In, All-map,
}
use bdls.Base.Assoc.{keys, values, Entries}
use bdls.Errors.{Error}
use bdls.Message.{State, Message, SignedProto}
use bdls.Message.Signing.{verify}
use bdls.Consensus.State.{Consensus, Setup, current, quorum}
use bdls.Consensus.Checks.{
  as_unknown, verify_signed, signer_of, is_participant, is_round_change, nil_or_valid, not_above,
  bump, max_count, count_proposals,
}
use bdls.Consensus.Rounds.{round_leader}
use bdls.Consensus.Verify.{select_proof, verify_select}
use bdls.Consensus.Certificates.{collect-Distinct, as_unknown-eq-ok, verify_signed-eq-ok}
use bdls.Consensus.Latest.{last_by, last_by-In, collect-last, collect-All}

abbrev count_of : ℕ → List (ℕ × ℕ) → ℕ
count_of h [] = 0
count_of h ((k, n) ∷ counts) = let rest = count_of h counts in if h == k then n else rest

count_of-bump :
    (g h : ℕ) (counts : List (ℕ × ℕ))
    → count_of g (bump h counts) ≡ (if g == h then suc (count_of g counts) else count_of g counts)
unfolding bump
count_of-bump g h [] = ground arith
count_of-bump g h ((k, n) ∷ counts) = ground (arith, count_of-bump g h counts)

max_count-ge :
    (h best : ℕ) (counts : List (ℕ × ℕ))
    → (best ≤ max_count best counts) × (count_of h counts ≤ max_count best counts)
unfolding max_count
max_count-ge h best [] = (omega arith, omega arith)
max_count-ge h best ((k, n) ∷ counts) =
    let (above, rest) = max_count-ge h (if ltb best n then n else best) counts in
    (ground (arith, above), ground (arith, above, rest))

length-bump :
    (h : ℕ) (counts : List (ℕ × ℕ))
    → (0 < length (bump h counts)) × (length counts ≤ length (bump h counts))
unfolding bump
length-bump h [] = (omega arith, omega arith)
length-bump h ((k, n) ∷ counts) =
    let (a, b) = length-bump h counts in (ground (arith, a), ground (arith, b))

module _ (s : Setup) where
  -- How many entries propose a state of a hash.
  abbrev pub proposers : ℕ → List (ℕ × State) → ℕ
  proposers h rcs = count_if (λ v. is_some v && (h == s.state_hash v)) (values rcs)

  count_of-count_proposals :
      (h : ℕ) (rcs : List (ℕ × State)) (acc : List (ℕ × ℕ))
      → count_of h (count_proposals s rcs acc) ≡ proposers h rcs + count_of h acc
  unfolding count_proposals
  count_of-count_proposals h [] acc = omega arith
  count_of-count_proposals h ((id, none) ∷ rcs) acc = count_of-count_proposals h rcs acc
  count_of-count_proposals h ((id, some b) ∷ rcs) acc =
      let k = s.state_hash (some b) in
      ground (arith, count_of-count_proposals h rcs (bump k acc), count_of-bump h k acc)

  length-count_proposals :
      (rcs : List (ℕ × State)) (acc : List (ℕ × ℕ))
      → length acc ≤ length (count_proposals s rcs acc)
  unfolding count_proposals
  length-count_proposals [] acc = omega arith
  length-count_proposals ((id, none) ∷ rcs) acc = length-count_proposals rcs acc
  length-count_proposals ((id, some b) ∷ rcs) acc =
      let k = s.state_hash (some b) in
      omega (arith, length-count_proposals rcs (bump k acc), length-bump k acc)

  All-nil :
      (rcs : List (ℕ × State)) (acc : List (ℕ × ℕ))
      → length (count_proposals s rcs acc) ≡ 0
      → All (λ v. v ≡ none) (values rcs)
  unfolding count_proposals
  All-nil [] acc e = tt
  All-nil ((id, none) ∷ rcs) acc e = (refl, All-nil rcs acc e)
  All-nil ((id, some b) ∷ rcs) acc e =
      let k = s.state_hash (some b) in
      absurd (omega (arith, e, length-count_proposals rcs (bump k acc), length-bump k acc))

  last_check :
      (kind height round valid below : Bool) (st v : State)
      → (require kind Error.select_proof_type_mismatch
          >> (require height Error.select_proof_height_mismatch
              >> (require round Error.select_proof_round_mismatch
                  >> (require valid Error.select_proof_state_validation
                      >> (require below Error.select_proof_not_the_maximal >> ok v)))))
        ≡ ok st
      → (kind ≡ true)
        × (height ≡ true)
        × (round ≡ true)
        × (valid ≡ true)
        × (below ≡ true)
        × (v ≡ st)
  last_check kind height round valid below st v h =
      let (a, h1) = >>-eq-ok kind _ _ h in
      let (b, h2) = >>-eq-ok height _ _ h1 in
      let (c, h3) = >>-eq-ok round _ _ h2 in
      let (d, h4) = >>-eq-ok valid _ _ h3 in
      let (e, h5) = >>-eq-ok below _ _ h4 in (a, b, c, d, e, ok-injective h5)

  -- A proof is a <roundchange> message of a participant for the round, with nil or a valid state that
  -- is not above the selected one.
  pub record Proof (m : Message) (p : SignedProto) (st : State) : Type 0 where
    pub content : Message
    pub known : is_participant s (signer_of s p) ≡ true
    pub genuine : verify s.lib p ≡ true
    pub decodes : s.lib.unmarshal_message p.message ≡ some content
    pub kind : is_round_change content.kind ≡ true
    pub at_height : content.height ≡ m.height
    pub at_round : content.round ≡ m.round
    pub for_state : content.state ≡ st
    pub valid : nil_or_valid s content.state ≡ true
    pub below : not_above s m.state content.state ≡ true

  -- So is every proof that passes the loop of `verifySelectMessage`.
  select_proof-Proof :
      (m : Message) (p : SignedProto) (st : State) → select_proof s m p ≡ ok st → Proof m p st
  unfolding select_proof
  select_proof-Proof m p st h =
      let (content, e, rest) =
        >>=-eq-ok (as_unknown Error.select_proof_unknown_participant (verify_signed s p)) _ h in
      let (known, genuine, decodes) = verify_signed-eq-ok s p (as_unknown-eq-ok _ _ e) in
      let (kind, height, round, valid, below, same) =
        last_check (is_round_change content.kind) (content.height == m.height)
          (content.round == m.round) (nil_or_valid s content.state)
          (not_above s m.state content.state) st content.state rest in
      record {
        content = content;
        known = known;
        genuine = genuine;
        decodes = decodes;
        kind = kind;
        at_height = ==→eq _ _ height;
        at_round = ==→eq _ _ round;
        for_state = same;
        valid = valid;
        below = below;
      }

  -- The last proof of a participant has this state.
  pub record LastVote (m : Message) (id : ℕ) (st : State) : Type 0 where
    pub last : SignedProto
    pub among : In last m.proof
    pub signed_by : signer_of s last ≡ id
    pub is_last : last_by (signer_of s) id m.proof ≡ some last
    pub passes : Proof m last st

  -- No proof has a state above the selected one. Each signer has one vote, for the state of the
  -- last of its proofs: at least 2t + 1 have one, fewer than 2t + 1 have one for the same hash, and
  -- if nil is selected none has one for a state.
  pub record Selection (m : Message) : Type 0 where
    pub votes_of : List (ℕ × State)
    pub distinct : Distinct (keys votes_of)
    pub enough : quorum s ≤ length votes_of
    pub last_votes : Entries (LastVote m) votes_of
    pub all_proofs :
        All
          (λ p. ((st : State) × Proof m p st) × (has (signer_of s p) (keys votes_of) ≡ true))
          m.proof
    pub undecided : (h : ℕ) → proposers h votes_of < quorum s
    pub nothing_above_nil : m.state ≡ none → All (λ v. v ≡ none) (values votes_of)

  passed-LastVote :
      (m : Message) (id : ℕ) (st : State)
      → ((p : SignedProto) × (last_by (signer_of s) id m.proof ≡ some p)
          × (select_proof s m p ≡ ok st))
      → LastVote m id st
  passed-LastVote m id st (p, last, passed) =
      let (among, same) = last_by-In (signer_of s) id m.proof p last in
      record {
        last = p;
        among = among;
        signed_by = same;
        is_last = last;
        passes = select_proof-Proof m p st passed;
      }

  Entries-LastVote :
      (m : Message) (rcs : List (ℕ × State))
      → Entries
          (λ id st.
            (p : SignedProto) × (last_by (signer_of s) id m.proof ≡ some p)
            × (select_proof s m p ≡ ok st))
          rcs
      → Entries (LastVote m) rcs
  Entries-LastVote m [] e = tt
  Entries-LastVote m ((id, st) ∷ rcs) e = (passed-LastVote m id st e.0, Entries-LastVote m rcs e.1)

  -- An accepted <select> message is at the next height and no lower round, carries nil or a valid
  -- state, and is signed by the leader of its round. None of its proofs has a state above the
  -- selected one, if there is one. Where a participant has signed several of the proofs, the last
  -- one is its vote: at least 2t + 1 different participants vote for this round, fewer than 2t + 1
  -- for any one hash, and if nil is selected none votes for a state. Nothing is said of proofs that
  -- are not the last ones of their signers, besides that they pass the same checks.
  pub verify_select-Selection :
      (c : Consensus) (m : Message) (signed : SignedProto)
      → verify_select s c m signed ≡ ok tt
      → (m.height ≡ u64 (c.latest_height + 1))
        × ((current c).round_number ≤ m.round)
        × (nil_or_valid s m.state ≡ true)
        × (round_leader s m.round ≡ ok (signer_of s signed))
        × Selection m
  unfolding verify_select
  verify_select-Selection c m signed h =
      let (height, h1) = >>-eq-ok _ _ _ h in
      let (round, h2) = >>-eq-ok _ _ _ h1 in
      let (valid, h3) = >>-eq-ok _ _ _ h2 in
      let (leader, found, h4) = >>=-eq-ok _ _ h3 in
      let (by_leader, h5) = >>-eq-ok _ _ _ h4 in
      let (rcs, collected, h6) = >>=-eq-ok _ _ h5 in
      let (enough, h7) = >>-eq-ok _ _ _ h6 in
      let counts = count_proposals s rcs [] in
      let (stated, h8) = >>-eq-ok (is_some m.state || length counts == 0) _ _ h7 in
      let below : max_count 0 counts < quorum s =
        ltb→lt _ _ (require-eq-ok (ltb (max_count 0 counts) (quorum s)) _ h8) in
      (
        ==→eq _ _ height,
        not-ltb _ _ round,
        valid,
        found ∙ ap ok (sym (==→eq _ _ by_leader)),
        record {
          votes_of = rcs;
          distinct = collect-Distinct (select_proof s m) (signer_of s) m.proof [] rcs collected tt;
          enough = not-ltb _ _ enough;
          last_votes =
              Entries-LastVote m rcs
                (collect-last (signer_of s) (select_proof s m) m.proof rcs collected);
          all_proofs =
              All-map _ _ m.proof
                (λ p ((st, passed), there). ((st, select_proof-Proof m p st passed), there))
                (collect-All (signer_of s) (select_proof s m) m.proof [] rcs collected);
          undecided =
              λ k. omega (arith, below, count_of-count_proposals k rcs [], max_count-ge k 0 counts);
          nothing_above_nil = λ nil. All-nil rcs [] (ground (arith, stated, nil));
        },
      )
