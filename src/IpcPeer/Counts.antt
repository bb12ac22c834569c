-- ===== src/IpcPeer/Counts.antt =====
-- The counters and latencies of an in-process peer of ipc_peer.go, against the messages sent to it.
pub mod Steps
use mathlib.Core.Option.{some-injective}
use bdls.Base.{
  ℕ, zero, suc, ◌+◌, ◌≡◌, refl, sym, ap, subst, ◌∙◌, List, [], ◌∷◌, ◌++◌, map, Option, none, some,
  Bool, true, false, if◌then◌else◌, arith, u64, word, length, count_if, All, All-map, In, inl, inr,
  ◌⊎◌, if_cases,
}
use bdls.Message.{Bytes, State}
use bdls.Consensus.State.{Consensus, Setup}
use bdls.Consensus.Receive.{receive_message}
use bdls.Consensus.Update.{update as update_consensus}
use bdls.IpcPeer.{
  IpcPeer, Work, delivers, updates, Scheduled, new_ipc_peer, send_message, count_message,
  close_ipc_peer, propose_ipc_peer, behind_consensus, signed_less, delay_of, deliver, again_at,
  update_ipc_peer,
}
use bdls.IpcPeer.Runs.{
  Parcel, Running, Step, sends, proposes, closes, calls_update, runs_update, runs_delivery, fresh,
  Reach, here, next,
}

abbrev pub add_parcel : Work → List Parcel → List Parcel
add_parcel (delivers msg delay) ps = (msg, delay) ∷ ps
add_parcel updates ps = ps

-- The messages that wait in the scheduler.
abbrev pub waiting : List Scheduled → List Parcel
waiting [] = []
waiting (x ∷ xs) = add_parcel x.work (waiting xs)

abbrev pub bytes_of : List Parcel → ℕ
bytes_of [] = 0
bytes_of (p ∷ ps) = length p.0 + bytes_of ps

abbrev pub delays : List Parcel → List ℕ
delays = map (λ (p : Parcel). p.1)

abbrev pub sum : List ℕ → ℕ
sum [] = 0
sum (n ∷ ns) = n + sum ns

-- The counters are those of the delivered messages; the least latency is one of theirs and none is
-- below it, the greatest one of theirs, or 0, and none is above it.
pub record Counts (delivered : List Parcel) (p : IpcPeer) : Type 0 where
  pub messages : p.msg_count ≡ u64 (length delivered)
  pub bytes : p.bytes_count ≡ u64 (bytes_of delivered)
  pub total : p.total_latency ≡ u64 (sum (delays delivered))
  pub none_below : All (λ (d : ℕ). signed_less d p.min_latency ≡ false) (delays delivered)
  pub none_above : All (λ (d : ℕ). signed_less p.max_latency d ≡ false) (delays delivered)
  pub least : (p.min_latency ≡ 9223372036854775807) ⊎ In p.min_latency (delays delivered)
  pub greatest : (p.max_latency ≡ 0) ⊎ In p.max_latency (delays delivered)

below_kept :
    (d least x : ℕ)
    → signed_less d least ≡ true
    → signed_less x least ≡ false
    → signed_less x d ≡ false
below_kept d least x h k = ground arith

above_kept :
    (d most x : ℕ)
    → signed_less most d ≡ true
    → signed_less most x ≡ false
    → signed_less d x ≡ false
above_kept d most x h k = ground arith

less_irrefl : (a : ℕ) → signed_less a a ≡ false
less_irrefl a = ground arith

u64-add : (n k : ℕ) → u64 (u64 n + k) ≡ u64 (k + n)
u64-add n k = omega arith

AtLeast : ℕ → List ℕ → Type 0
AtLeast least ds =
    All (λ (x : ℕ). signed_less x least ≡ false) ds × ((least ≡ 9223372036854775807) ⊎ In least ds)

AtMost : ℕ → List ℕ → Type 0
AtMost most ds = All (λ (x : ℕ). signed_less most x ≡ false) ds × ((most ≡ 0) ⊎ In most ds)

still_among : (n m d : ℕ) (ds : List ℕ) → (n ≡ m) ⊎ In n ds → (n ≡ m) ⊎ In n (d ∷ ds)
still_among n m d ds (inl e) = inl e
still_among n m d ds (inr i) = inr (inr i)

with_delay-AtLeast :
    (d least : ℕ) (ds : List ℕ)
    → AtLeast least ds
    → AtLeast (if signed_less d least then d else least) (d ∷ ds)
unfolding AtLeast
with_delay-AtLeast d least ds (all, i) =
    if_cases (λ (n : ℕ). AtLeast n (d ∷ ds)) (signed_less d least) d least
      (λ less. (
        (
          less_irrefl d,
          All-map (λ (x : ℕ). signed_less x least ≡ false) (λ (x : ℕ). signed_less x d ≡ false) ds
              (λ x. below_kept d least x less) all,
        ),
        inr (inl refl),
      ))
      (λ more. ((more, all), still_among least 9223372036854775807 d ds i))

with_delay-AtMost :
    (d most : ℕ) (ds : List ℕ)
    → AtMost most ds
    → AtMost (if signed_less most d then d else most) (d ∷ ds)
unfolding AtMost
with_delay-AtMost d most ds (all, i) =
    if_cases (λ (n : ℕ). AtMost n (d ∷ ds)) (signed_less most d) d most
      (λ less. (
        (
          less_irrefl d,
          All-map (λ (x : ℕ). signed_less most x ≡ false) (λ (x : ℕ). signed_less d x ≡ false) ds
              (λ x. above_kept d most x less) all,
        ),
        inr (inl refl),
      ))
      (λ more. ((more, all), still_among most 0 d ds i))

pub count_message-Counts :
    (delivered : List Parcel) (p : IpcPeer) (msg : Bytes) (delay : ℕ)
    → Counts delivered p
    → Counts ((msg, delay) ∷ delivered) (count_message p msg delay)
unfolding count_message AtLeast AtMost
count_message-Counts delivered p msg delay k =
    let low = with_delay-AtLeast delay p.min_latency (delays delivered) (k.none_below, k.least) in
    let high =
      with_delay-AtMost delay p.max_latency (delays delivered) (k.none_above, k.greatest) in
    let more_messages : u64 (p.msg_count + 1) ≡ u64 (suc (length delivered)) =
      omega (arith, k.messages) in
    record {
      messages = more_messages;
      bytes =
          ap (λ (n : ℕ). u64 (n + length msg)) k.bytes ∙ u64-add (bytes_of delivered) (length msg);
      total = ap (λ (n : ℕ). u64 (n + delay)) k.total ∙ u64-add (sum (delays delivered)) delay;
      none_below = low.0;
      none_above = high.0;
      least = low.1;
      greatest = high.1;
    }

add_parcel-count :
    (q : Parcel → Bool) (w : Work) (ps : List Parcel)
    → count_if q (add_parcel w ps) ≡ count_if q (add_parcel w []) + count_if q ps
add_parcel-count q (delivers msg delay) ps = ground arith
add_parcel-count q updates ps = ground arith

-- What is taken out of the scheduler and what stays in it.
taken_out :
    (q : Parcel → Bool) (before : List Scheduled) (x : Scheduled) (behind : List Scheduled)
    → count_if q (waiting (before ++ x ∷ behind))
      ≡ count_if q (add_parcel x.work []) + count_if q (waiting (before ++ behind))
taken_out q [] x behind = add_parcel-count q x.work (waiting behind)
taken_out q (y ∷ before) x behind = omega (
  arith,
  add_parcel-count q y.work (waiting (before ++ x ∷ behind)),
  add_parcel-count q y.work (waiting (before ++ behind)),
  taken_out q before x behind,
)

-- The peer after another state of its consensus.
pub recount :
    (delivered : List Parcel) (p : IpcPeer) (c : Consensus) (died : Bool)
    → Counts delivered p
    → Counts delivered (record p { consensus = c; died = died })
recount delivered p c died k = record {
  messages = k.messages;
  bytes = k.bytes;
  total = k.total;
  none_below = k.none_below;
  none_above = k.none_above;
  least = k.least;
  greatest = k.greatest;
}

-- Besides its counters being right, each message that was sent waits in the scheduler or has been
-- delivered, and as often as it was sent.
pub record Counted (sent : List Parcel) (a : Running) : Type 0 where
  pub counts : Counts a.delivered a.peer
  pub each_once :
      (q : Parcel → Bool)
      → count_if q a.delivered + count_if q (waiting a.pending) ≡ count_if q sent

pub sent_too :
    (q : Parcel → Bool) (x : Parcel) (ds ws sent : List Parcel)
    → count_if q ds + count_if q ws ≡ count_if q sent
    → count_if q ds + count_if q (x ∷ ws) ≡ count_if q (x ∷ sent)
sent_too q x ds ws sent e = ground arith

pub update_gone :
    (q : Parcel → Bool) (ds : List Parcel) (pending : List Scheduled) (sent : List Parcel)
    (before behind : List Scheduled) (ts : ℕ)
    → pending ≡ before ++ record { work = updates; ts = ts } ∷ behind
    → count_if q ds + count_if q (waiting pending) ≡ count_if q sent
    → count_if q ds + count_if q (waiting (before ++ behind)) ≡ count_if q sent
update_gone q ds pending sent before behind ts at e =
    let here = ap (λ (xs : List Scheduled). count_if q (waiting xs)) at in
    let out = taken_out q before (record { work = updates; ts = ts }) behind in
    omega (arith, here, out, e)

pub delivery_moved :
    (q : Parcel → Bool) (ds : List Parcel) (pending : List Scheduled) (sent : List Parcel)
    (before behind : List Scheduled) (msg : Bytes) (delay ts : ℕ)
    → pending ≡ before ++ record { work = delivers msg delay; ts = ts } ∷ behind
    → count_if q ds + count_if q (waiting pending) ≡ count_if q sent
    → count_if q ((msg, delay) ∷ ds) + count_if q (waiting (before ++ behind)) ≡ count_if q sent
delivery_moved q ds pending sent before behind msg delay ts at e =
    let here = ap (λ (xs : List Scheduled). count_if q (waiting xs)) at in
    let out = taken_out q before (record { work = delivers msg delay; ts = ts }) behind in
    ground (arith, here, out, e)
