-- ===== src/IpcPeer/Runs.antt =====
-- The runs of an in-process peer of ipc_peer.go: calls, and what the scheduler runs in any order.
use mathlib.Core.Option.{some-injective}
use bdls.Base.{
  ℕ, ◌≡◌, refl, sym, subst, List, [], ◌∷◌, ◌++◌, Option, none, some, Bool, true, false,
  if◌then◌else◌,
}
use bdls.Message.{Bytes, State}
use bdls.Consensus.State.{Consensus, Setup}
use bdls.Consensus.Receive.{receive_message}
use bdls.Consensus.Update.{update as update_consensus}
use bdls.Consensus.Reachable.{
  Reach as Reached, here as start, next as then_next, proposes as calls_propose,
}
use bdls.Consensus.Whole.{receive_message-Reach, update-Reach}
use bdls.IpcPeer.{
  IpcPeer, delivers, updates, Scheduled, new_ipc_peer, send_message, count_message, close_ipc_peer,
  propose_ipc_peer, behind_consensus, delay_of, deliver, again_at, update_ipc_peer,
}

-- A message and the delay drawn for it.
abbrev pub Parcel : Type 0
Parcel = Bytes × ℕ

-- A peer, what waits in the scheduler, and the messages delivered so far, the last one first.
pub record Running : Type 0 where
  pub peer : IpcPeer
  pub pending : List Scheduled
  pub delivered : List Parcel

abbrev pub fresh : Consensus → ℕ → Running
fresh c latency = record { peer = new_ipc_peer c latency; pending = []; delivered = [] }

module _ (s : Setup) where
  -- One step: the user calls Send, Propose, Update or Close, or the scheduler runs one of the waiting
  -- functions, whichever.
  pub data Step (a b : Running) : List Parcel → Type 0 where
    sends :
        (msg : Bytes) (noise now : ℕ)
        → b ≡ record a { pending = send_message a.peer msg noise now ∷ a.pending }
        → Step a b ((msg, delay_of a.peer noise) ∷ [])
    proposes : (st : State) → b ≡ record a { peer = propose_ipc_peer s a.peer st } → Step a b []
    closes : b ≡ record a { peer = close_ipc_peer a.peer } → Step a b []
    calls_update :
        (fuel now later : ℕ) (p : IpcPeer) (more : List Scheduled)
        → update_ipc_peer s fuel a.peer now later ≡ some (p, more)
        → b ≡ record a { peer = p; pending = more ++ a.pending }
        → Step a b []
    runs_update :
        (fuel now later : ℕ) (p : IpcPeer) (more before behind : List Scheduled) (ts : ℕ)
        → a.pending ≡ before ++ record { work = updates; ts = ts } ∷ behind
        → update_ipc_peer s fuel a.peer now later ≡ some (p, more)
        → b ≡ record a { peer = p; pending = more ++ (before ++ behind) }
        → Step a b []
    runs_delivery :
        (fuel now : ℕ) (p : IpcPeer) (msg : Bytes) (delay : ℕ) (before behind : List Scheduled)
        (ts : ℕ)
        → a.pending ≡ before ++ record { work = delivers msg delay; ts = ts } ∷ behind
        → deliver s fuel a.peer msg delay now ≡ some p
        → b
          ≡ record { peer = p; pending = before ++ behind; delivered = (msg, delay) ∷ a.delivered }
        → Step a b []

  -- What a run leads to, with the messages that were sent in it, the last one first.
  pub data Reach (c : Consensus) (latency : ℕ) : List Parcel → Running → Type 0 where
    here : Reach c latency [] (fresh c latency)
    next :
        {sent more : List Parcel} {a b : Running}
        → Reach c latency sent a
        → Step a b more
        → Reach c latency (more ++ sent) b

  moved :
      (c : Consensus) {b d : Running}
      → b ≡ d
      → Reached s c d.peer.consensus
      → Reached s c b.peer.consensus
  moved c e r = subst (λ (x : Running). Reached s c x.peer.consensus) (sym e) r

  deliver-Reached :
      (origin : Consensus) (fuel : ℕ) (p : IpcPeer) (msg : Bytes) (delay now : ℕ) (q : IpcPeer)
      → deliver s fuel p msg delay now ≡ some q
      → Reached s origin p.consensus
      → Reached s origin q.consensus
  unfolding deliver count_message
  deliver-Reached origin fuel p msg delay now q e r =
      by_result (receive_message s fuel p.consensus msg now) refl e
    where
      by_result :
          (o : Option Consensus)
          → receive_message s fuel p.consensus msg now ≡ o
          → behind_consensus s (count_message p msg delay) o ≡ some q
          → Reached s origin q.consensus
      by_result none f h = absurd (cc h)
      by_result (some c) f h =
          subst (λ (x : IpcPeer). Reached s origin x.consensus) (some-injective _ _ h)
            (receive_message-Reach s fuel origin p.consensus c msg now r f)

  update-Reached :
      (origin : Consensus) (fuel : ℕ) (p : IpcPeer) (now later : ℕ) (q : IpcPeer)
      (more : List Scheduled)
      → update_ipc_peer s fuel p now later ≡ some (q, more)
      → Reached s origin p.consensus
      → Reached s origin q.consensus
  unfolding update_ipc_peer
  update-Reached origin fuel p now later q more e r = by_state p.died e
    where
      by_result :
          (o : Option Consensus)
          → update_consensus s fuel p.consensus now ≡ o
          → again_at s later p o ≡ some (q, more)
          → Reached s origin q.consensus
      by_result none f h = absurd (cc h)
      by_result (some c) f h =
          subst (λ (x : IpcPeer × List Scheduled). Reached s origin x.0.consensus)
            (some-injective _ _ h) (update-Reach s fuel origin p.consensus c now r f)

      by_state :
          (died : Bool)
          → (if died
              then some (p, [])
              else again_at s later p (update_consensus s fuel p.consensus now))
            ≡ some (q, more)
          → Reached s origin q.consensus
      by_state true h =
          subst (λ (x : IpcPeer × List Scheduled). Reached s origin x.0.consensus)
            (some-injective _ _ h) r
      by_state false h = by_result (update_consensus s fuel p.consensus now) refl h

  Step-Reached :
      (c : Consensus) {a b : Running} {more : List Parcel}
      → Step a b more
      → Reached s c a.peer.consensus
      → Reached s c b.peer.consensus
  unfolding propose_ipc_peer close_ipc_peer
  Step-Reached c (sends msg noise now e) r = moved c e r
  Step-Reached c {a} (proposes st e) r = moved c e (then_next r (calls_propose st refl))
  Step-Reached c (closes e) r = moved c e r
  Step-Reached c {a} (calls_update fuel now later p more h e) r =
      moved c e (update-Reached c fuel a.peer now later p more h r)
  Step-Reached c {a} (runs_update fuel now later p more before behind ts at h e) r =
      moved c e (update-Reached c fuel a.peer now later p more h r)
  Step-Reached c {a} (runs_delivery fuel now p msg delay before behind ts at h e) r =
      moved c e (deliver-Reached c fuel a.peer msg delay now p h r)

  -- Whatever is sent, proposed, updated and closed, and in whatever order the scheduler runs what it
  -- is given: the consensus of the peer is in a state that the steps of the consensus lead to, so
  -- that what is proved of these holds behind the peer.
  pub Reach-Reached :
      {c : Consensus} {latency : ℕ} {sent : List Parcel} {a : Running}
      → Reach c latency sent a
      → Reached s c a.peer.consensus
  unfolding new_ipc_peer
  Reach-Reached here = start
  Reach-Reached {c} (next r st) = Step-Reached c st (Reach-Reached r)
