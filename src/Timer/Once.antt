-- ===== src/Timer/Once.antt =====
-- No task of timedsched.go is lost, run twice, or run too early, however the goroutines interleave.
use bdls.Base.{
  ℕ, zero, suc, ◌+◌, ◌<◌, ◌≡◌, refl, ap, subst, List, [], ◌∷◌, ◌++◌, some, map, Bool, arith,
  count_if, get_elem?, set, All, All-append,
}
use mathlib.Core.Option.{some-injective}
use bdls.Timer.Tasks.{Task}
use bdls.Timer.Sched.{Worker, new_worker, on_task, on_tick}
use bdls.Timer.Cells.{count-append}
use bdls.Timer.Heap.{IsHeap, SameTasks}
use bdls.Timer.Due.{before, on_task-Takes, on_tick-RunsDue}
use bdls.Timer.Scheduler.{
  TimedSched, new_timed_sched, put, move, logged, back, hand, tick_worker, close,
}

-- The steps of the scheduler; the first list is what is put. A batch is moved when the one before has
-- been handed out.
pub data Step (s : TimedSched) : List Task → TimedSched → Type 0 where
  puts : (task : Task) → Step s (task ∷ []) (put s task)
  moves : s.batch ≡ [] → Step s [] (move s)
  hands :
      (now i : ℕ) (task : Task) (rest : List Task) (w : Worker)
      → s.batch ≡ task ∷ rest
      → get_elem? s.workers i ≡ some w
      → Step s [] (hand now i s task rest w)
  fires :
      (now i : ℕ) (w : Worker) → get_elem? s.workers i ≡ some w → Step s [] (tick_worker now i s w)
  closes : Step s [] (close s)

-- The states that a scheduler comes to, with all that has been put.
pub data Reach (starts : List ℕ) : List Task → TimedSched → Type 0 where
  here : Reach starts [] (new_timed_sched starts)
  next :
      {given more : List Task} {s d : TimedSched}
      → Reach starts given s
      → Step s more d
      → Reach starts (more ++ given) d

-- How often a task is held by the goroutines.
abbrev pub held : (Task → Bool) → List Worker → ℕ
held p [] = 0
held p (w ∷ ws) = count_if p w.tasks + held p ws

abbrev pub executed : TimedSched → List Task
executed s = map (λ (e : Task × ℕ). e.0) s.log

-- How often a task has been run, or waits somewhere.
abbrev pub tally : (Task → Bool) → TimedSched → ℕ
tally p s =
    count_if p (executed s) + (count_if p s.prepend_tasks + (count_if p s.batch + held p s.workers))

pub record Accounted (given : List Task) (s : TimedSched) : Type 0 where
  pub each_once : (p : Task → Bool) → tally p s ≡ count_if p given
  pub not_early : All (λ (e : Task × ℕ). e.0.ts < e.1) s.log
  pub heaps : All (λ (w : Worker). IsHeap w.tasks) s.workers

held-set :
    (p : Task → Bool) (ws : List Worker) (i : ℕ) (w v : Worker)
    → get_elem? ws i ≡ some w
    → held p (set ws i v) + count_if p w.tasks ≡ held p ws + count_if p v.tasks
held-set p [] i w v e = cc
held-set p (x ∷ ws) zero w v e =
    let same = ap (λ (y : Worker). count_if p y.tasks) (some-injective _ _ e) in omega (arith, same)
held-set p (x ∷ ws) (suc i) w v e = omega (arith, held-set p ws i w v e)

All-get {κ} :
    (P : Worker → Type κ) (ws : List Worker) (i : ℕ) (w : Worker)
    → get_elem? ws i ≡ some w
    → All P ws
    → P w
All-get P [] i w e a = absurd (cc e)
All-get P (x ∷ ws) zero w e a = subst P (some-injective _ _ e) a.0
All-get P (x ∷ ws) (suc i) w e a = All-get P ws i w e a.1

All-set {κ} :
    (P : Worker → Type κ) (ws : List Worker) (i : ℕ) (v : Worker)
    → P v
    → All P ws
    → All P (set ws i v)
All-set P [] i v h a = tt
All-set P (x ∷ ws) zero v h a = (h, a.1)
All-set P (x ∷ ws) (suc i) v h a = (a.0, All-set P ws i v h a.1)

map-append :
    (xs ys : List (Task × ℕ))
    → map (λ (e : Task × ℕ). e.0) (xs ++ ys)
      ≡ map (λ (e : Task × ℕ). e.0) xs ++ map (λ (e : Task × ℕ). e.0) ys
map-append [] ys = refl
map-append (x ∷ xs) ys = ap (λ (l : List Task). x.0 ∷ l) (map-append xs ys)

map-logged : (now : ℕ) (xs : List Task) → map (λ (e : Task × ℕ). e.0) (logged now xs) ≡ xs
map-logged now [] = refl
map-logged now (x ∷ xs) = ap (λ (l : List Task). x ∷ l) (map-logged now xs)

logged-early :
    (now : ℕ) (xs : List Task)
    → All (λ (x : Task). x.ts < now) xs
    → All (λ (e : Task × ℕ). e.0.ts < e.1) (logged now xs)
logged-early now [] a = tt
logged-early now (x ∷ xs) a = (a.0, logged-early now xs a.1)

-- A goroutine that accounts for what it had and was given keeps the scheduler accounted for.
back-Accounted :
    (given : List Task) (s : TimedSched) (i now : ℕ) (w : Worker) (new : List Task)
    (r : Worker × List Task)
    → get_elem? s.workers i ≡ some w
    → SameTasks (r.1 ++ r.0.tasks) (new ++ w.tasks)
    → All (λ (x : Task). x.ts < now) r.1
    → IsHeap r.0.tasks
    → ((p : Task → Bool) → count_if p new + tally p s ≡ count_if p given)
    → All (λ (e : Task × ℕ). e.0.ts < e.1) s.log
    → All (λ (w : Worker). IsHeap w.tasks) s.workers
    → Accounted given (back s i now r)
back-Accounted given s i now w new r e same due heap once early heaps = record {
  each_once = λ p.
      let ran = ap (count_if p) (map-append s.log (logged now r.1)) in
      let log = ap (λ l. count_if p (executed s ++ l)) (map-logged now r.1) in
      omega (
        arith,
        ran,
        log,
        count-append p (executed s) r.1,
        count-append p r.1 r.0.tasks,
        count-append p new w.tasks,
        same p,
        held-set p s.workers i w r.0 e,
        once p,
      );
  not_early = All-append _ s.log (logged now r.1) early (logged-early now r.1 due);
  heaps = All-set _ s.workers i r.0 heap heaps;
}

none-before_zero : (h : List Task) → count_if (before 0) h ≡ 0
none-before_zero [] = refl
none-before_zero (x ∷ h) = ground (arith, none-before_zero h)

new_workers-idle :
    (starts : List ℕ)
    → ((p : Task → Bool) → held p (map new_worker starts) ≡ 0)
      × All (λ (w : Worker). IsHeap w.tasks) (map new_worker starts)
new_workers-idle [] = (λ p. refl, tt)
new_workers-idle (n ∷ starts) =
    let (none_held, heaps) = new_workers-idle starts in
    (λ p. omega (arith, none_held p), (λ i a b. absurd (omega (arith, b)), heaps))

Step-Accounted :
    (given more : List Task) (s d : TimedSched)
    → Step s more d
    → Accounted given s
    → Accounted (more ++ given) d
unfolding put move hand tick_worker close
Step-Accounted given _ s _ (puts task) a = record {
  each_once =
      λ p. let queue = count-append p s.prepend_tasks (task ∷ []) in ground (arith, a.each_once p);
  not_early = a.not_early;
  heaps = a.heaps;
}
Step-Accounted given _ s _ (moves idle) a = record {
  each_once = λ p. let none_left = ap (count_if p) idle in omega (arith, a.each_once p, none_left);
  not_early = a.not_early;
  heaps = a.heaps;
}
Step-Accounted given _ s _ (hands now i task rest w first e) a =
    let t = on_task-Takes now w task (All-get _ s.workers i w e a.heaps) in
    back-Accounted given (record s { batch = rest }) i now w (task ∷ []) (on_task now w task) e
      t.same_tasks t.due t.heap
      (λ p. let split = ap (count_if p) first in ground (arith, a.each_once p)) a.not_early a.heaps
Step-Accounted given _ s _ (fires now i w e) a =
    let t =
      on_tick-RunsDue now 0 w (All-get _ s.workers i w e a.heaps) (none-before_zero w.tasks) in
    back-Accounted given s i now w [] (on_tick now w) e t.same_tasks t.due t.heap
      (λ p. omega (arith, a.each_once p)) a.not_early a.heaps
Step-Accounted given _ s _ closes a = record {
  each_once = a.each_once;
  not_early = a.not_early;
  heaps = a.heaps;
}

-- However the goroutines interleave, each task that has been put is in one place only, run or
-- waiting, as often as it was put; a task runs only when its deadline has passed, and every goroutine
-- keeps its tasks in the order of a heap.
pub Reach-Accounted :
    (starts : List ℕ) (given : List Task) (s : TimedSched)
    → Reach starts given s
    → Accounted given s
unfolding new_timed_sched
Reach-Accounted starts _ _ here =
    let (idle, heaps) = new_workers-idle starts in
    record { each_once = λ p. omega (arith, idle p); not_early = tt; heaps = heaps }
Reach-Accounted starts _ _ (next {given} {more} {s} {d} r st) =
    Step-Accounted given more s d st (Reach-Accounted starts given s r)
