-- ===== src/Consensus/Reachable.antt =====
-- The whole object of consensus.go as a transition system: messages, time, calls of the user.
use Prim.Native.String.{String}
use mathlib.Core.Option.{some-injective}
use text.Mathlib.Text.{◌==◌ as str_eq}
use bdls.Base.{
  ℕ, ◌+◌, ◌<◌, ◌≡◌, refl, sym, subst, if_cases, any_of, ◌==◌, List, [], ◌∷◌, some, Bool, arith,
  Outcome, ok, err, panic, require, Ensures, Ensures-eq, Ensures-map, >>=-Ensures, word, inr,
}
use bdls.Message.{Bytes, State, Message, MessageType, SignedProto, protocol_version}
use bdls.Round.{Stage}
use bdls.Consensus.State.{Consensus, Setup, Peer, set_stage}
use bdls.Consensus.Rounds.{switch_round}
use bdls.Consensus.Checks.{decoded, verify_message}
use bdls.Consensus.Proposals.{propose}
use bdls.Consensus.Receive.{accepts, dispatch, receive, settle, drain_from, drain_one}
use bdls.Consensus.Handlers.{on_resync}
use bdls.Consensus.Update.{tick}
use bdls.Consensus.Peers.{join, leave, set_latency}
use bdls.Consensus.Config.{Config, init, blank}
use bdls.Consensus.InOrder.{
  InOrder, Frame, Frame-refl, SameCore-trans, InOrder-Frame, switch_round-InOrder,
}
use bdls.Consensus.Frames.{set_stage-Frame, broadcast_round_change-Frame, propose-Frame}
use bdls.Consensus.Progress.{NotBehind, Advances, Advances-Frame}
use bdls.Consensus.Joining.{on_round_change-Advances}
use bdls.Consensus.Monotone.{
  on_select-Advances, on_lock-Advances, on_lock_release-Advances, on_commit-InOrder,
  on_decide-Advances,
}
use bdls.Consensus.Ticking.{Onward, tick-Onward}

-- In order, and not behind unless the next height wraps.
abbrev pub Follows : Consensus → Consensus → Type 0
Follows c d = InOrder d × (c.latest_height + 1 < word → NotBehind c d)

Advances-Follows : (c d : Consensus) → Advances c d → Follows c d
Advances-Follows c d a = (a.in_order, λ _. a.not_behind)

join-Frame : (c : Consensus) (p : Peer) → Frame c (join c p).0
unfolding join
join-Frame c p =
    if_cases (λ (q : Consensus × Bool). Frame c q.0)
      (any_of (λ (q : Peer). str_eq p.addr q.addr) c.peers) _ _ (λ _. Frame-refl c)
      (λ _. Frame-refl c)

leave-Frame : (c : Consensus) (addr : String) → Frame c (leave c addr).0
unfolding leave
leave-Frame c addr = Frame-refl c

module _ (s : Setup) where
  dispatch-Follows :
      (kind : MessageType) (c : Consensus) (bts : Bytes) (m : Message) (signed : SignedProto)
      (now : ℕ)
      → InOrder c
      → Ensures (Follows c) (dispatch s kind c bts m signed now)
  unfolding dispatch on_resync
  dispatch-Follows MessageType.nop c bts m signed now i =
      Advances-Follows c c (Advances-Frame c c (Frame-refl c) i)
  dispatch-Follows MessageType.round_change c bts m signed now i =
      Ensures-map (Advances c) (Follows c) _ (Advances-Follows c)
        (on_round_change-Advances s c m signed now i)
  dispatch-Follows MessageType.select c bts m signed now i =
      Ensures-map (Advances c) (Follows c) _ (Advances-Follows c)
        (on_select-Advances s c m signed now i)
  dispatch-Follows MessageType.lock c bts m signed now i =
      Ensures-map (Advances c) (Follows c) _ (Advances-Follows c)
        (on_lock-Advances s c m signed now i)
  dispatch-Follows MessageType.lock_release c bts m signed now i =
      Ensures-map (Advances c) (Follows c) _ (Advances-Follows c) (on_lock_release-Advances s c m i)
  dispatch-Follows MessageType.commit c bts m signed now i = on_commit-InOrder s c m signed now i
  dispatch-Follows MessageType.decide c bts m signed now i =
      Ensures-map (Advances c) (Follows c) _ (Advances-Follows c)
        (on_decide-Advances s c bts m signed now)
  dispatch-Follows MessageType.resync c bts m signed now i =
      (InOrder-Frame c _ (Frame-refl c) i, λ _. inr (refl, omega arith))
  dispatch-Follows (MessageType.other n) c bts m signed now i = tt

  -- No message, from whomever, brings the rounds out of order, and none brings height or round back
  -- unless the height is the last uint64.
  pub receive-Follows :
      (c : Consensus) (bts : Bytes) (now : ℕ)
      → InOrder c
      → Ensures (Follows c) (receive s c bts now)
  unfolding receive
  receive-Follows c bts now i =
      >>=-Ensures (Follows c) (decoded (s.lib.unmarshal_signed bts)) _ λ signed _.
        >>=-Ensures (Follows c) (require (signed.version == protocol_version) _) _ λ _ _.
          >>=-Ensures (Follows c) (verify_message s (some signed)) _ λ m _.
            >>=-Ensures (Follows c) (require (accepts s c m signed) _) _
              λ _ _. dispatch-Follows m.kind c bts m signed now i

  -- One step of the object: a message is received, time passes, the object takes a message to
  -- itself off its queue, or its user calls.
  pub data Step (c d : Consensus) : Type 0 where
    receives : (bts : Bytes) (now : ℕ) → receive s c bts now ≡ ok d → Step c d
    ticks : (now : ℕ) → tick s c now ≡ ok d → Step c d
    drains : (now : ℕ) → drain_one s c now ≡ some d → Step c d
    proposes : (st : State) → d ≡ propose s c st → Step c d
    joins : (p : Peer) → d ≡ (join c p).0 → Step c d
    leaves : (addr : String) → d ≡ (leave c addr).0 → Step c d
    sets_latency : (latency : ℕ) → d ≡ set_latency c latency → Step c d

  pub data Reach (c : Consensus) : Consensus → Type 0 where
    here : Reach c c
    next : {d e : Consensus} → Reach c d → Step d e → Reach c e

  settle-InOrder :
      (c : Consensus) (o : Outcome Consensus) {d : Consensus}
      → settle s c o ≡ some d
      → InOrder c
      → Ensures InOrder o
      → InOrder d
  settle-InOrder c (ok c') e i h = subst InOrder (some-injective _ _ e) h
  settle-InOrder c (err x) e i h = subst InOrder (some-injective _ _ e) i
  settle-InOrder c panic e i h = absurd (cc e)

  drain_one-InOrder :
      (c d : Consensus) (now : ℕ) → drain_one s c now ≡ some d → InOrder c → InOrder d
  unfolding drain_one
  drain_one-InOrder c d now e i = from c.loopback e
    where
      from : (queue : List Bytes) → drain_from s c now queue ≡ some d → InOrder d
      from [] h = subst InOrder (some-injective _ _ h) i
      from (bts ∷ rest) h =
          let c1 = record c { loopback = rest } in
          let i1 = InOrder-Frame c c1 (Frame-refl c) i in
          settle-InOrder c1 (receive s c1 bts now) h i1
            (Ensures-map (Follows c1) InOrder _ (λ a f. f.0) (receive-Follows c1 bts now i1))

  Step-InOrder : {c d : Consensus} → Step c d → InOrder c → InOrder d
  unfolding set_latency
  Step-InOrder {c} {d} (receives bts now e) i =
      (Ensures-eq (Follows c) _ (receive-Follows c bts now i) e).0
  Step-InOrder {c} {d} (ticks now e) i = (Ensures-eq (Onward s c) _ (tick-Onward s c now i) e).0
  Step-InOrder {c} {d} (drains now e) i = drain_one-InOrder c d now e i
  Step-InOrder {c} {d} (proposes st e) i =
      subst InOrder (sym e) (InOrder-Frame c _ (propose-Frame s c st) i)
  Step-InOrder {c} {d} (joins p e) i = subst InOrder (sym e) (InOrder-Frame c _ (join-Frame c p) i)
  Step-InOrder {c} {d} (leaves addr e) i =
      subst InOrder (sym e) (InOrder-Frame c _ (leave-Frame c addr) i)
  Step-InOrder {c} {d} (sets_latency l e) i =
      subst InOrder (sym e) (InOrder-Frame c _ (Frame-refl c) i)

  init-InOrder : (config : Config) → InOrder (init s config)
  unfolding init blank
  init-InOrder config =
      let c0 = switch_round (blank config.current_height) 0 in
      let c1 = set_stage c0 Stage.round_changing in
      let (order, _, _) = switch_round-InOrder (blank config.current_height) 0 tt tt in
      InOrder-Frame c0 _
        (SameCore-trans (set_stage-Frame c0 Stage.round_changing)
          (broadcast_round_change-Frame s c1))
        order

  -- Whatever messages, ticks and calls follow one another from `init` on, the list of rounds rises
  -- strictly, holds allocated rounds only and none below the current one.
  pub Reach-InOrder : (config : Config) {d : Consensus} → Reach (init s config) d → InOrder d
  Reach-InOrder config here = init-InOrder config
  Reach-InOrder config (next r st) = Step-InOrder st (Reach-InOrder config r)
