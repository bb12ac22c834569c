-- ===== src/Samples/Timers.antt =====
-- A scheduler of two goroutines that is given three tasks.
use bdls.Base.{◌≡◌, refl, List, [], ◌∷◌, some, arith, ℕ}
use bdls.Timer.Tasks.{Task, push, pop, up, down, swap}
use bdls.Timer.Sched.{Worker, new_worker, on_task, on_tick, run_due}
use bdls.Timer.Heap.{IsHeap, push-IsHeap}
use bdls.Timer.Due.{RunsDue, on_tick-RunsDue}
use bdls.Timer.Scheduler.{TimedSched, new_timed_sched, put, move, hand}
use bdls.Timer.Once.{Reach, here, next, puts, moves, hands, Accounted, Reach-Accounted}

abbrev task : ℕ → ℕ → Task
task n time = record { execute = n; ts = time }

-- Three tasks that are pushed one after the other.
abbrev three : List Task
three = push (push (push [] (task 1 50)) (task 2 30)) (task 3 90)

three-IsHeap : IsHeap three
three-IsHeap =
    let none_yet : IsHeap [] = λ i a b. absurd (omega (arith, b)) in
    let one = (push-IsHeap [] (task 1 50) none_yet).0 in
    let two = (push-IsHeap (push [] (task 1 50)) (task 2 30) one).0 in
    (push-IsHeap (push (push [] (task 1 50)) (task 2 30)) (task 3 90) two).0

abbrev busy : Worker
busy = record { tasks = three; timer = some 60 }

-- At 60 the tasks of 30 and 50 are run, and that of 90 is kept.
busy_at_60 :
    on_tick 60 busy
    ≡ (record { tasks = task 3 90 ∷ []; timer = some 90 }, task 2 30 ∷ task 1 50 ∷ [])
unfolding on_tick run_due push pop up down swap
busy_at_60 = refl

on_tick-RunsDue_example : RunsDue 60 0 busy.tasks (on_tick 60 busy)
unfolding push up swap
on_tick-RunsDue_example = on_tick-RunsDue 60 0 busy three-IsHeap refl

abbrev start : TimedSched
start = new_timed_sched (0 ∷ 0 ∷ [])

abbrev given : TimedSched
given = move (put (put start (task 1 50)) (task 2 30))

abbrev idle : Worker
idle = new_worker 0

abbrev handed : TimedSched
handed = hand 40 1 given (task 1 50) (task 2 30 ∷ []) idle

abbrev late : TimedSched
late = hand 45 0 handed (task 2 30) [] idle

late-Reach : Reach (0 ∷ 0 ∷ []) (task 2 30 ∷ task 1 50 ∷ []) late
unfolding new_timed_sched put move hand on_task push up swap
late-Reach =
    next
      (next (next (next (next here (puts (task 1 50))) (puts (task 2 30))) (moves refl))
        (hands 40 1 (task 1 50) (task 2 30 ∷ []) idle refl refl))
      (hands 45 0 (task 2 30) [] idle refl refl)

Reach-Accounted_example : Accounted (task 2 30 ∷ task 1 50 ∷ []) late
Reach-Accounted_example = Reach-Accounted (0 ∷ 0 ∷ []) (task 2 30 ∷ task 1 50 ∷ []) late late-Reach
