-- ===== src/Consensus/Progress.antt =====
-- Comparing states of consensus.go by height and round.
use bdls.Base.{
  ℕ, ◌≤◌, ◌<◌, ◌≡◌, refl, sym, ◌∙◌, ap, [], none, Bool, false, arith, inl, inr, ◌⊎◌, any_of,
  All-map, if_cases,
}
use bdls.Message.{State, Message, SignedProto}
use bdls.Round.{Round, Stage, same_signer, add_round_change}
use bdls.Consensus.State.{Consensus}
use bdls.Consensus.Rounds.{get_round, switch_round, height_sync}
use bdls.Consensus.RoundList.{Ascending-agree}
use bdls.Consensus.InOrder.{
  numbers, InOrder, Frame, InOrder-Frame, current-Frame, switch_round-InOrder, get_round-GotRound,
}
use bdls.Consensus.Frames.{set_stage-Frame}
use bdls.Consensus.Scanned.{Scanned}
use bdls.Consensus.Handlers.{Scan}

-- The height has risen, or it is the same and the round has not fallen.
abbrev pub NotBehind : Consensus → Consensus → Type 0
NotBehind c d =
    (c.latest_height < d.latest_height)
    ⊎ ((d.latest_height ≡ c.latest_height)
        × (numbers c c.current_round ≤ numbers d d.current_round))

-- A state in order that is not behind another.
pub record Advances (c d : Consensus) : Type 0 where
  pub in_order : InOrder d
  pub not_behind : NotBehind c d

pub Advances-Frame : (c d : Consensus) → Frame c d → InOrder c → Advances c d
Advances-Frame c d f i = record {
  in_order = InOrder-Frame c d f i;
  not_behind = inr (f.same_height, omega (arith, current-Frame c d f));
}

NotBehind-trans : (c d e : Consensus) → NotBehind c d → NotBehind d e → NotBehind c e
NotBehind-trans c d e (inl a) (inl b) = inl (omega arith)
NotBehind-trans c d e (inl a) (inr b) = inl (omega arith)
NotBehind-trans c d e (inr a) (inl b) = inl (omega arith)
NotBehind-trans c d e (inr a) (inr b) = inr (b.0 ∙ a.0, omega arith)

pub Advances-trans : (c d e : Consensus) → Advances c d → Advances d e → Advances c e
Advances-trans c d e a b = record {
  in_order = b.in_order;
  not_behind = NotBehind-trans c d e a.not_behind b.not_behind;
}

pub switch_round-Advances :
    (c : Consensus) (round : ℕ)
    → InOrder c
    → numbers c c.current_round ≤ round
    → Advances c (switch_round c round)
switch_round-Advances c round i h =
    let (order, hit, height) = switch_round-InOrder c round i.ascending i.allocated in
    record { in_order = order; not_behind = inr (height, omega (arith, hit)) }

-- A new height starts with one round, in order.
pub height_sync-InOrder :
    (c : Consensus) (height round : ℕ) (st : State)
    → InOrder (height_sync c height round st)
      × ((height_sync c height round st).latest_height ≡ height)
unfolding height_sync
height_sync-InOrder c height round st =
    let c0 = record c {
      latest_height = height;
      latest_round = round;
      latest_state = st;
      last_round_change_proof = none;
      rounds = [];
      locks = [];
      unconfirmed = [];
    } in
    let (order, hit, same) = switch_round-InOrder c0 0 tt tt in
    let moved = set_stage-Frame (switch_round c0 0) Stage.round_changing in
    (InOrder-Frame (switch_round c0 0) _ moved order, moved.same_height ∙ same)

pub get_round-current :
    (c : Consensus) (round : ℕ)
    → InOrder c
    → let d = (get_round c round false).0 in numbers d d.current_round ≡ numbers c c.current_round
get_round-current c round i =
    let d = (get_round c round false).0 in
    let got = get_round-GotRound c round false i.ascending i.allocated in
    ap (numbers d) got.same_current ∙ got.same_numbers c.current_round i.current_allocated

pub get_round-Advances :
    (c : Consensus) (round : ℕ)
    → InOrder c
    → numbers c c.current_round ≤ round
    → Advances c (get_round c round false).0
get_round-Advances c round i h =
    let d = (get_round c round false).0 in
    let got = get_round-GotRound c round false i.ascending i.allocated in
    let same = get_round-current c round i in
    record {
      in_order = record {
        ascending = got.ascending;
        allocated = got.allocated;
        current_allocated = omega (arith, got.same_current, got.grows, i.current_allocated);
        not_below =
            All-map _ _ d.rounds (λ p g. omega (arith, same, g))
              (got.bounded (numbers c c.current_round) h i.not_below);
      };
      not_behind = inr (got.same_height, omega (arith, same));
    }

pub add_round_change-number :
    (hash : State → ℕ) (r : Round) (sp : SignedProto) (m : Message)
    → (add_round_change hash r sp m).0.round_number ≡ r.round_number
unfolding add_round_change
add_round_change-number hash r sp m =
    if_cases (λ (q : Round × Bool). q.0.round_number ≡ r.round_number)
      (any_of (same_signer sp.x sp.y) r.round_changes) _ _ (λ _. refl) (λ _. refl)

pub Scanned-InOrder :
    (c : Consensus) (scan : Scan)
    → Scanned c.heap c.rounds scan
    → InOrder c
    → InOrder (record c { rounds = scan.refs; heap = scan.heap })
Scanned-InOrder c scan kept i = record {
  ascending =
      kept.still_ascending (λ p. (scan.heap p).round_number)
        (Ascending-agree (numbers c) _ c.rounds
          (All-map (λ p. p < c.next_ref) _ c.rounds (λ p _. sym (kept.same_numbers p)) i.allocated)
          i.ascending);
  allocated = kept.still_all _ i.allocated;
  current_allocated = i.current_allocated;
  not_below = kept.still_all _ (
      All-map _ _ c.rounds
        (λ p h. omega (arith, kept.same_numbers p, kept.same_numbers c.current_round)) i.not_below);
}
