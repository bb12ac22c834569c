-- ===== src/Consensus/Votes/Scanning.antt =====
-- The case <roundchange> of receiveMessage in consensus.go, and the messages in the rounds.
use bdls.Base.{
  ℕ, ◌≡◌, refl, sym, List, [], ◌∷◌, Option, none, some, Bool, true, false, ◌&&◌, ◌==◌, ltb,
  if_cases, if◌then◌else◌, Outcome, ok, err, panic, Ensures, Ensures-eq, >>=-Ensures,
}
use bdls.Message.{Message, MessageType, SignedProto}
use bdls.Message.Signing.{verify}
use bdls.Round.{
  Round, Stage, rank, add_round_change, find_round_change, remove_round_change, num_round_changes,
  signed_round_changes,
}
use bdls.Consensus.State.{Consensus, Setup, current, quorum, write, set_round}
use bdls.Consensus.Rounds.{get_round, switch_round, round_leader}
use bdls.Consensus.Checks.{signer_of, is_participant, is_round_change}
use bdls.Consensus.Send.{broadcast_round_change}
use bdls.Consensus.Verify.{verify_round_change}
use bdls.Consensus.Handlers.{
  Scan, prepend, drop_message, scan_one, scan_rounds, enter_lock, accept_round_change,
  on_round_change,
}
use bdls.Consensus.InOrder.{InOrder, get_round-GotRound}
use bdls.Consensus.Scanned.{Scanned, scan_rounds-Scanned}
use bdls.Consensus.Progress.{Scanned-InOrder}
use bdls.Consensus.Votes.{
  Genuine, Kept, HeapKept, AllKept, write-Kept, remove_round_change-Kept, add_round_change-Kept,
}
use bdls.Consensus.Votes.Sending.{
  set_stage-Kept, get_round-Kept, switch_round-Kept, broadcast_round_change-Kept, track_max-Kept,
}

module _ (s : Setup) where
  -- What `verifyMessage` has established of a message.
  abbrev pub Authentic : Message → SignedProto → Type 0
  Authentic m signed =
      (is_participant s (signer_of s signed) ≡ true)
      × (verify s.lib signed ≡ true)
      × (s.lib.unmarshal_message signed.message ≡ some m)

  pub recorded-Genuine :
      (is_kind : MessageType → Bool) (round : ℕ) (m : Message) (signed : SignedProto)
      → Authentic m signed
      → is_kind m.kind ≡ true
      → m.round ≡ round
      → Genuine s is_kind round
          (record { state_hash = s.state_hash m.state; message = m; signed = signed })
  recorded-Genuine is_kind round m signed (known, good, decodes) kind at = record {
    known = known;
    signed_by = good;
    decodes = decodes;
    kind = kind;
    at_round = at;
    hashed = refl;
  }

  abbrev ScanKept : Scan → Type 0
  ScanKept scan = HeapKept s scan.heap

  prepend-Kept : (p : ℕ) (o : Outcome Scan) → Ensures ScanKept o → Ensures ScanKept (prepend p o)
  prepend-Kept p (ok r) h = h
  prepend-Kept p (err e) h = tt
  prepend-Kept p panic h = tt

  module _ (cur round : ℕ) where
    drop_message-Kept :
        (heap : ℕ → Round) (p : ℕ) (again : (ℕ → Round) → Outcome Scan) (removed : Outcome Round)
        → ((h : ℕ → Round) → HeapKept s h → Ensures ScanKept (again h))
        → HeapKept s heap
        → Ensures (Kept s) removed
        → Ensures ScanKept (drop_message heap p again removed)
    unfolding drop_message
    drop_message-Kept heap p again (ok r) good k kr =
        let rest = good (write heap p r) (write-Kept s heap p r k kr) in
        if_cases (Ensures ScanKept) (num_round_changes r == 0) _ _ (λ _. rest)
          (λ _. prepend-Kept p (again (write heap p r)) rest)
    drop_message-Kept heap p again (err x) good k kr = tt
    drop_message-Kept heap p again panic good k kr = tt

    scan_one-Kept :
        (heap : ℕ → Round) (p : ℕ) (ps : List ℕ) (again : (ℕ → Round) → Outcome Scan)
        (at : Option ℕ)
        → ((h : ℕ → Round) → HeapKept s h → Ensures ScanKept (again h))
        → HeapKept s heap
        → Ensures ScanKept (scan_one cur round heap p ps again at)
    unfolding scan_one
    scan_one-Kept heap p ps again none good k = prepend-Kept p (again heap) (good heap k)
    scan_one-Kept heap p ps again (some idx) good k =
        let onward = prepend-Kept p (again heap) (good heap k) in
        if_cases (Ensures ScanKept) (round == cur) _ _ (λ _. onward)
          (λ _.
            if_cases (Ensures ScanKept) (ltb round (heap p).round_number) _ _ (λ _. k)
              (λ _.
                if_cases (Ensures ScanKept) (ltb (heap p).round_number round) _ _
                  (λ _.
                    drop_message-Kept heap p again (remove_round_change (heap p) idx) good k
                      (remove_round_change-Kept s (heap p) idx (k p)))
                  (λ _. onward)))

    scan_rounds-Kept :
        (x y : ℕ) (heap : ℕ → Round) (ps : List ℕ)
        → HeapKept s heap
        → Ensures ScanKept (scan_rounds cur round x y heap ps)
    unfolding scan_rounds
    scan_rounds-Kept x y heap [] k = k
    scan_rounds-Kept x y heap (p ∷ ps) k =
        scan_one-Kept heap p ps _ (find_round_change (heap p) x y) (λ h. scan_rounds-Kept x y h ps)
          k

  enter_lock-Kept :
      (c : Consensus) (round now : ℕ) → AllKept s c → Ensures (AllKept s) (enter_lock s c round now)
  unfolding enter_lock
  enter_lock-Kept c round now k =
      let c1 = switch_round c round in
      let c2 = record c1 { last_round_change_proof = some (signed_round_changes (current c1)) } in
      >>=-Ensures (AllKept s) (round_leader s round) _ λ leader _.
        set_stage-Kept s (broadcast_round_change s c2) Stage.lock
          (broadcast_round_change-Kept s c2 (switch_round-Kept s c round k))

  accept_round_change-Kept :
      (c : Consensus) (m : Message) (signed : SignedProto) (now : ℕ)
      → InOrder c
      → AllKept s c
      → Authentic m signed
      → is_round_change m.kind ≡ true
      → Ensures (AllKept s) (accept_round_change s c m signed now)
  unfolding accept_round_change
  accept_round_change-Kept c m signed now i k a kind =
      let (c1, p) = get_round c m.round false in
      let (r, added) = add_round_change s.state_hash (c1.heap p) signed m in
      let k1 = get_round-Kept s c m.round false k in
      let hit = (get_round-GotRound c m.round false i.ascending i.allocated).hit in
      let c2 = set_round c1 p r in
      let k2 = write-Kept s c1.heap p r k1 (
        add_round_change-Kept s (c1.heap p) signed m (k1 p)
          (recorded-Genuine is_round_change _ m signed a kind (sym hit))) in
      let full = num_round_changes r == quorum s && ltb (rank r.stage) (rank Stage.lock) in
      let k3 =
        if_cases (Ensures (AllKept s)) full (enter_lock s c2 m.round now) (ok c2)
          (λ _. enter_lock-Kept c2 m.round now k2) (λ _. k2) in
      if_cases (Ensures (AllKept s)) added _ _
        (λ _.
          >>=-Ensures (AllKept s) (if full then enter_lock s c2 m.round now else ok c2) _
            (λ c3 e. track_max-Kept s c3 p m.round (Ensures-eq (AllKept s) _ k3 e)))
        (λ _. k1)

  pub on_round_change-Kept :
      (c : Consensus) (m : Message) (signed : SignedProto) (now : ℕ)
      → InOrder c
      → AllKept s c
      → Authentic m signed
      → is_round_change m.kind ≡ true
      → Ensures (AllKept s) (on_round_change s c m signed now)
  unfolding on_round_change
  on_round_change-Kept c m signed now i k a kind =
      >>=-Ensures (AllKept s) (verify_round_change s c m) _ λ _ _.
        >>=-Ensures (AllKept s)
          (scan_rounds (current c).round_number m.round signed.x signed.y c.heap c.rounds) _
          λ scan e.
            let cur = (current c).round_number in
            let scanned = scan_rounds-Scanned cur m.round signed.x signed.y c.heap c.rounds in
            let left = scan_rounds-Kept cur m.round signed.x signed.y c.heap c.rounds k in
            let order =
              Scanned-InOrder c scan (Ensures-eq (Scanned c.heap c.rounds) _ scanned e) i in
            let kept = Ensures-eq ScanKept _ left e in
            if_cases (Ensures (AllKept s)) scan.stop _ _ (λ _. kept)
              (λ _.
                accept_round_change-Kept (record c { rounds = scan.refs; heap = scan.heap }) m
                  signed now order kept a kind)
