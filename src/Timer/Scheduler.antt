-- ===== src/Timer/Scheduler.antt =====
-- TimedSched of timedsched.go as a whole: Put, the goroutine of prepend, and those of sched.
use bdls.Base.{ℕ, List, [], ◌∷◌, ◌++◌, map, set, Bool, true, false}
use bdls.Timer.Tasks.{Task}
use bdls.Timer.Sched.{Worker, new_worker, on_task, on_tick}

-- `TimedSched`, with the variable of `prepend`, those of each goroutine of `sched`, and the tasks
-- that have been executed, each with the time at which it was.
pub record TimedSched : Type 0 where
  pub prepend_tasks : List Task
  pub batch : List Task  -- `tasks` of `prepend`
  pub workers : List Worker
  pub log : List (Task × ℕ)
  pub died : Bool

-- `parallel` goroutines, as many as the times at which they start.
unfoldable pub new_timed_sched : List ℕ → TimedSched
new_timed_sched starts = record {
  prepend_tasks = [];
  batch = [];
  workers = map new_worker starts;
  log = [];
  died = false;
}

-- `Put`.
unfoldable pub put : TimedSched → Task → TimedSched
put s task = record s { prepend_tasks = s.prepend_tasks ++ task ∷ [] }

-- `prepend` after a notification: all that has been put is moved.
unfoldable pub move : TimedSched → TimedSched
move s = record s { prepend_tasks = []; batch = s.prepend_tasks }

-- What a goroutine has run at a time.
abbrev pub logged : ℕ → List Task → List (Task × ℕ)
logged now = map (λ x. (x, now))

-- The goroutine `i` with what it has run.
abbrev pub back : TimedSched → ℕ → ℕ → Worker × List Task → TimedSched
back s i now r = record s { workers = set s.workers i r.0; log = s.log ++ logged now r.1 }

-- `ts.chTask <- tasks[k]`, received by goroutine `i`; the rest of the batch waits.
unfoldable pub hand : ℕ → ℕ → TimedSched → Task → List Task → Worker → TimedSched
hand now i s task rest w = back (record s { batch = rest }) i now (on_task now w task)

-- The timer of goroutine `i`.
unfoldable pub tick_worker : ℕ → ℕ → TimedSched → Worker → TimedSched
tick_worker now i s w = back s i now (on_tick now w)

-- `Close`.
unfoldable pub close : TimedSched → TimedSched
close s = record s { died = true }
