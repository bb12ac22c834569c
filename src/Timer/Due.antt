-- ===== src/Timer/Due.antt =====
-- Which tasks a goroutine of timedsched.go runs at a tick, and which it keeps.
use bdls.Base.{
  ℕ, zero, suc, ◌+◌, ◌-◌, ◌<◌, ◌≤◌, ◌≡◌, refl, subst, sym, ◌∙◌, ◌⊎◌, inl, inr, List, [], ◌∷◌, ◌++◌,
  some, Bool, arith, ltb, ltb→lt, if_cases, length, count_if, All,
}
use bdls.Timer.Tasks.{Task, push, pop}
use bdls.Timer.Sched.{Worker, reset, on_task, run_due, on_tick}
use bdls.Timer.Heap.{deadline, IsHeap, SameTasks, push-IsHeap, pop-IsHeap, IsHeap-least}

-- A task with a deadline before a time.
abbrev pub before : ℕ → Task → Bool
before time x = ltb x.ts time

-- Deadlines that do not fall, from a time on.
abbrev pub Ascending : ℕ → List Task → Type 0
Ascending from [] = Unit
Ascending from (x ∷ xs) = (from ≤ x.ts) × Ascending x.ts xs

-- The timer of a goroutine that holds tasks fires at the earliest deadline, or at once.
abbrev pub Armed : ℕ → Worker → Type 0
Armed now w = (w.tasks ≡ []) ⊎ (w.timer ≡ some (now + (deadline w.tasks 0 - now)))

-- What is run of the tasks `h` at a time, and what is kept. The deadlines in `h` are not before
-- `from`.
pub record RunsDue (now from : ℕ) (h : List Task) (r : Worker × List Task) : Type 0 where
  pub in_order : Ascending from r.1
  pub due : All (λ (x : Task). x.ts < now) r.1
  pub rest_not_due : count_if (before now) r.0.tasks ≡ 0
  pub same_tasks : SameTasks (r.1 ++ r.0.tasks) h
  pub heap : IsHeap r.0.tasks
  pub armed : Armed now r.0

none-before :
    (h : List Task) (time : ℕ)
    → ((i : ℕ) → i < length h → time ≤ deadline h i)
    → count_if (before time) h ≡ 0
none-before [] time a = refl
none-before (x ∷ h) time a =
    let first = a 0 (omega arith) in
    let rest = none-before h time (λ i b. a (suc i) (omega (arith, b))) in ground arith

root-none-before : (h : List Task) → IsHeap h → count_if (before (deadline h 0)) h ≡ 0
root-none-before h o = none-before h (deadline h 0) (λ i a. IsHeap-least h i o a)

-- No task is before a time that no deadline of the root is before.
kept-none-before :
    (x : Task) (h : List Task) (now : ℕ)
    → IsHeap (x ∷ h)
    → now ≤ x.ts
    → count_if (before now) (x ∷ h) ≡ 0
kept-none-before x h now o a =
    none-before (x ∷ h) now (λ i b. omega (arith, a, IsHeap-least (x ∷ h) i o b))

count-tail :
    (p : Task → Bool) (y : Task) (r : List Task) → count_if p (y ∷ r) ≡ 0 → count_if p r ≡ 0
count-tail p y r e = ground arith

count-cons :
    (p : Task → Bool) (y : Task) (g r : List Task)
    → count_if p g ≡ count_if p r
    → count_if p (y ∷ g) ≡ count_if p (y ∷ r)
count-cons p y g r e = ground arith

run_due-lem :
    (fuel now : ℕ) (h : List Task) (from : ℕ)
    → length h < fuel
    → IsHeap h
    → count_if (before from) h ≡ 0
    → RunsDue now from h (run_due fuel now h)
unfolding run_due
run_due-lem zero now h from k o b = absurd (omega (arith, k))
run_due-lem (suc fuel) now [] from k o b = record {
  in_order = tt;
  due = tt;
  rest_not_due = refl;
  same_tasks = λ p. refl;
  heap = o;
  armed = inl refl;
}
run_due-lem (suc fuel) now (x ∷ h) from k o b =
    let (root, ordered, size, same) = pop-IsHeap (x ∷ h) (omega arith) o in
    let rest = (pop (x ∷ h)).1 in
    let starts : from ≤ x.ts = ground arith in
    let all : count_if (before x.ts) rest ≡ 0 =
      count-tail (before x.ts) (pop (x ∷ h)).0 rest
        (same (before x.ts) ∙ root-none-before (x ∷ h) o) in
    let later = run_due-lem fuel now rest x.ts (omega (arith, size, k)) ordered all in
    let (w, ran) = run_due fuel now rest in
    if_cases (RunsDue now from (x ∷ h)) (ltb x.ts now) (w, (pop (x ∷ h)).0 ∷ ran)
      (reset now (x ∷ h), [])
      (λ late. record {
        in_order =
            subst (λ (y : Task). (from ≤ y.ts) × Ascending y.ts ran) (sym root)
              (starts, later.in_order);
        due = (subst (λ (y : Task). y.ts < now) (sym root) (ltb→lt x.ts now late), later.due);
        rest_not_due = later.rest_not_due;
        same_tasks =
            λ p. count-cons p (pop (x ∷ h)).0 (ran ++ w.tasks) rest (later.same_tasks p) ∙ same p;
        heap = later.heap;
        armed = later.armed;
      })
      (λ early. record {
        in_order = tt;
        due = tt;
        rest_not_due = kept-none-before x h now o (ground arith);
        same_tasks = λ p. refl;
        heap = o;
        armed = inr refl;
      })

-- When its timer fires, a goroutine runs exactly the tasks whose deadline has passed, in the order of
-- their deadlines; it keeps the others, in the order of a heap, and sets its timer to the earliest of
-- their deadlines. No task is lost, and none is run twice.
pub on_tick-RunsDue :
    (now from : ℕ) (w : Worker)
    → IsHeap w.tasks
    → count_if (before from) w.tasks ≡ 0
    → RunsDue now from w.tasks (on_tick now w)
unfolding on_tick
on_tick-RunsDue now from w o b =
    run_due-lem (suc (length w.tasks)) now w.tasks from (omega arith) o b

-- What a goroutine makes of a new task.
pub record Takes (now : ℕ) (task : Task) (w : Worker) (r : Worker × List Task) : Type 0 where
  pub due : All (λ (x : Task). x.ts < now) r.1
  pub same_tasks : SameTasks (r.1 ++ r.0.tasks) (task ∷ w.tasks)
  pub heap : IsHeap r.0.tasks
  pub armed : Armed now r.0 ⊎ (r.0 ≡ w)

pub on_task-Takes :
    (now : ℕ) (w : Worker) (task : Task) → IsHeap w.tasks → Takes now task w (on_task now w task)
unfolding on_task
on_task-Takes now w task o =
    let (ordered, size, same) = push-IsHeap w.tasks task o in
    if_cases (Takes now task w) (ltb task.ts now) (w, task ∷ []) (reset now (push w.tasks task), [])
      (λ late. record {
        due = (ltb→lt task.ts now late, tt);
        same_tasks = λ p. refl;
        heap = o;
        armed = inr refl;
      })
      (λ early. record { due = tt; same_tasks = same; heap = ordered; armed = inl (inr refl) })
