-- ===== src/IpcPeer/Counts/Steps.antt =====
-- The steps of an in-process peer of ipc_peer.go keep its counters right and lose no message.
use mathlib.Core.Option.{some-injective}
use bdls.Base.{
  ℕ, ◌+◌, ◌≡◌, refl, sym, ap, subst, ◌∙◌, List, [], ◌∷◌, ◌++◌, Option, none, some, Bool, true,
  false, if◌then◌else◌, count_if, inl,
}
use bdls.Message.{Bytes}
use bdls.Consensus.State.{Consensus, Setup}
use bdls.Consensus.Receive.{receive_message}
use bdls.Consensus.Update.{update as update_consensus}
use bdls.IpcPeer.{
  IpcPeer, Scheduled, new_ipc_peer, send_message, count_message, close_ipc_peer, propose_ipc_peer,
  behind_consensus, delay_of, deliver, again_at, update_ipc_peer,
}
use bdls.IpcPeer.Runs.{
  Parcel, Running, Step, sends, proposes, closes, calls_update, runs_update, runs_delivery, Reach,
  here, next,
}
use bdls.IpcPeer.Counts.{
  waiting, Counts, Counted, count_message-Counts, recount, sent_too, update_gone, delivery_moved,
}

module _ (s : Setup) where
  deliver-Counts :
      (delivered : List Parcel) (fuel : ℕ) (p : IpcPeer) (msg : Bytes) (delay now : ℕ) (d : IpcPeer)
      → deliver s fuel p msg delay now ≡ some d
      → Counts delivered p
      → Counts ((msg, delay) ∷ delivered) d
  unfolding deliver
  deliver-Counts delivered fuel p msg delay now d e k =
      by_result (receive_message s fuel p.consensus msg now) e
    where
      by_result :
          (o : Option Consensus)
          → behind_consensus s (count_message p msg delay) o ≡ some d
          → Counts ((msg, delay) ∷ delivered) d
      by_result none h = absurd (cc h)
      by_result (some c) h = subst (Counts ((msg, delay) ∷ delivered)) (some-injective _ _ h) (
          recount ((msg, delay) ∷ delivered) (count_message p msg delay) c p.died
            (count_message-Counts delivered p msg delay k))

  abbrev Right : List Parcel → IpcPeer × List Scheduled → Type 0
  Right delivered x =
      Counts delivered x.0 × ((xs : List Scheduled) → waiting (x.1 ++ xs) ≡ waiting xs)

  -- An update hands no message to the scheduler.
  update-Counts :
      (delivered : List Parcel) (fuel : ℕ) (p : IpcPeer) (now later : ℕ) (d : IpcPeer)
      (more : List Scheduled)
      → update_ipc_peer s fuel p now later ≡ some (d, more)
      → Counts delivered p
      → Counts delivered d × ((xs : List Scheduled) → waiting (more ++ xs) ≡ waiting xs)
  unfolding update_ipc_peer
  update-Counts delivered fuel p now later d more e k = by_state p.died e
    where
      by_result :
          (o : Option Consensus) → again_at s later p o ≡ some (d, more) → Right delivered (d, more)
      by_result none h = absurd (cc h)
      by_result (some c) h =
          subst (Right delivered) (some-injective _ _ h)
            (recount delivered p c p.died k, λ xs. refl)

      by_state :
          (died : Bool)
          → (if died
              then some (p, [])
              else again_at s later p (update_consensus s fuel p.consensus now))
            ≡ some (d, more)
          → Right delivered (d, more)
      by_state true h = subst (Right delivered) (some-injective _ _ h) (k, λ xs. refl)
      by_state false h = by_result (update_consensus s fuel p.consensus now) h

  with_count : {given : List Parcel} {b d : Running} → b ≡ d → Counted given d → Counted given b
  with_count {given} e k = subst (Counted given) (sym e) k

  Step-Counted :
      (sent : List Parcel) {a b : Running} {more : List Parcel}
      → Step s a b more
      → Counted sent a
      → Counted (more ++ sent) b
  unfolding propose_ipc_peer close_ipc_peer send_message
  Step-Counted sent {a} (sends msg noise now e) k = with_count e (record {
    counts = k.counts;
    each_once = λ q.
        sent_too q (msg, delay_of a.peer noise) a.delivered (waiting a.pending) sent
          (k.each_once q);
  })
  Step-Counted sent {a} (proposes st e) k = with_count e (record {
    counts = recount a.delivered a.peer _ a.peer.died k.counts;
    each_once = k.each_once;
  })
  Step-Counted sent {a} (closes e) k = with_count e (record {
    counts = recount a.delivered a.peer a.peer.consensus true k.counts;
    each_once = k.each_once;
  })
  Step-Counted sent {a} (calls_update fuel now later p more h e) k =
      let (counts, nothing) = update-Counts a.delivered fuel a.peer now later p more h k.counts in
      with_count e (record {
        counts = counts;
        each_once = λ q.
            ap (λ (xs : List Parcel). count_if q a.delivered + count_if q xs) (nothing a.pending)
            ∙ k.each_once q;
      })
  Step-Counted sent {a} (runs_update fuel now later p more before behind ts at h e) k =
      let (counts, nothing) = update-Counts a.delivered fuel a.peer now later p more h k.counts in
      with_count e (record {
        counts = counts;
        each_once = λ q.
            ap (λ (xs : List Parcel). count_if q a.delivered + count_if q xs)
              (nothing (before ++ behind))
            ∙ update_gone q a.delivered a.pending sent before behind ts at (k.each_once q);
      })
  Step-Counted sent {a} (runs_delivery fuel now p msg delay before behind ts at h e) k =
      with_count e (record {
        counts = deliver-Counts a.delivered fuel a.peer msg delay now p h k.counts;
        each_once = λ q.
            delivery_moved q a.delivered a.pending sent before behind msg delay ts at
              (k.each_once q);
      })

  -- Whatever is sent, proposed, updated and closed, and in whatever order the scheduler runs what
  -- it is given: each message that was sent waits in the scheduler or has been delivered, as often
  -- as it was sent. The counts of messages and bytes and the total of the latencies are, as int64,
  -- those of the delivered messages. The least latency is one of theirs, or the greatest int64, and
  -- none of theirs is below it; the greatest is one of theirs, or 0, and none is above it.
  pub Reach-Counted :
      {c : Consensus} {latency : ℕ} {sent : List Parcel} {a : Running}
      → Reach s c latency sent a
      → Counted sent a
  unfolding new_ipc_peer
  Reach-Counted here = record {
    counts = record {
      messages = refl;
      bytes = refl;
      total = refl;
      none_below = tt;
      none_above = tt;
      least = inl refl;
      greatest = inl refl;
    };
    each_once = λ q. refl;
  }
  Reach-Counted (next {sent} r st) = Step-Counted sent st (Reach-Counted r)
