-- ===== src/Consensus/Rounds.antt =====
-- The list of rounds of consensus.go: getRound, switchRound, roundLeader, heightSync.
use bdls.Base.{
  ℕ, ◌+◌, ◌-◌, ◌%◌, List, [], ◌∷◌, none, some, Bool, true, false, Outcome, ok, panic, ltb, ◌==◌,
  if◌then◌else◌, length, get_elem?, word, sign_bit,
}
use bdls.Message.{State}
use bdls.Round.{Round, Stage, new_round}
use bdls.Consensus.State.{Consensus, Setup, write, set_stage}

-- What the search leaves: the list, the round's reference, and whether it was made.
pub record Search : Type 0 where
  pub refs : List ℕ
  pub ref : ℕ
  pub is_new : Bool

abbrev pub keep : Bool → ℕ → Search → Search
keep true p found = found
keep false p found = record found { refs = p ∷ found.refs }

-- The loop of `getRound`; `fresh` is the reference that a new round gets.
unfoldable pub search_round : (ℕ → Round) → ℕ → ℕ → Bool → List ℕ → Search
search_round heap fresh idx purge [] = record { refs = fresh ∷ []; ref = fresh; is_new = true }
search_round heap fresh idx purge (p ∷ ps) =
    let rest = search_round heap fresh idx purge ps in
    if ltb (heap p).round_number idx
    then keep purge p rest
    else if ltb idx (heap p).round_number
    then record { refs = fresh ∷ p ∷ ps; ref = fresh; is_new = true }
    else record { refs = p ∷ ps; ref = p; is_new = false }

-- `getRound`: the state and the reference.
unfoldable pub get_round : Consensus → ℕ → Bool → Consensus × ℕ
get_round c idx purge =
    let found = search_round c.heap c.next_ref idx purge c.rounds in
    (
      if found.is_new
          then record c {
            rounds = found.refs;
            heap = write c.heap c.next_ref (new_round idx);
            next_ref = c.next_ref + 1;
          }
          else record c { rounds = found.refs },
      found.ref,
    )

-- `switchRound`.
unfoldable pub switch_round : Consensus → ℕ → Consensus
unfolding get_round
switch_round c round = let (c', p) = get_round c round true in record c' { current_round = p }

abbrev at_index : List ℕ → ℕ → Outcome ℕ
at_index ps i = elim (get_elem? ps i) [ none ↦ panic | some p ↦ ok p ]

-- `participants[int(round) % len(participants)]`. From 2 ^ 63 on `int(round)` is negative, and so
-- is the remainder unless it is 0: the index panics. So does a remainder by 0.
unfoldable pub leader_of : List ℕ → ℕ → Outcome ℕ
leader_of ps round =
    if length ps == 0
    then panic
    else if ltb round sign_bit
    then at_index ps (round % length ps)
    else if (word - round) % length ps == 0
    then at_index ps 0
    else panic

-- `roundLeader`.
unfoldable pub round_leader : Setup → ℕ → Outcome ℕ
round_leader s round = elim s.fixed_leader [ none ↦ leader_of s.participants round | some l ↦ ok l ]

-- `heightSync`; its argument `now` is not used.
unfoldable pub height_sync : Consensus → ℕ → ℕ → State → Consensus
unfolding switch_round
height_sync c height round st =
    let c1 =
      switch_round
        (record c {
          latest_height = height;
          latest_round = round;
          latest_state = st;
          last_round_change_proof = none;
          rounds = [];
          locks = [];
          unconfirmed = [];
        })
        0 in
    set_stage c1 Stage.round_changing
