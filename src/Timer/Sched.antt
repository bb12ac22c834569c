-- ===== src/Timer/Sched.antt =====
-- The loops of timedsched.go: what a goroutine does with a task and at a tick, and what Put and
-- prepend hand to the goroutines.
use bdls.Base.{
  ℕ, zero, suc, ◌+◌, ◌-◌, List, [], ◌∷◌, Option, none, some, ltb, length, if◌then◌else◌,
}
use bdls.Timer.Tasks.{Task, at, push, pop}

-- The variables of `sched`. The timer is known by the time at which it fires, if it has been set.
pub record Worker : Type 0 where
  pub tasks : List Task
  pub timer : Option ℕ

-- `sched` before its loop, at some time: `time.NewTimer(0)`.
abbrev pub new_worker : ℕ → Worker
new_worker now = record { tasks = []; timer = some now }

-- `timer.Reset(tasks[0].ts.Sub(now))`: a duration below 0 passes at once.
abbrev pub reset : ℕ → List Task → Worker
reset now tasks = record { tasks = tasks; timer = some (now + ((at tasks 0).ts - now)) }

-- `case task := <-ts.chTask`, with the tasks that are executed.
unfoldable pub on_task : ℕ → Worker → Task → Worker × List Task
on_task now w task = if ltb task.ts now then (w, task ∷ []) else (reset now (push w.tasks task), [])

-- `for tasks.Len() > 0`, for as many tasks as the fuel allows.
unfoldable pub run_due : ℕ → ℕ → List Task → Worker × List Task
run_due zero now tasks = (record { tasks = tasks; timer = none }, [])
run_due (suc fuel) now [] = (record { tasks = []; timer = none }, [])
run_due (suc fuel) now (x ∷ h) =
    let (first, rest) = pop (x ∷ h) in
    let (w, later) = run_due fuel now rest in
    if ltb x.ts now then (w, first ∷ later) else (reset now (x ∷ h), [])

-- `case now := <-timer.C`: a task less in each round, so that their number is enough fuel.
unfoldable pub on_tick : ℕ → Worker → Worker × List Task
unfolding run_due
on_tick now w = run_due (suc (length w.tasks)) now w.tasks
