-- ===== src/Timer.antt =====
-- The scheduler of timer/timedsched.go: tasks with deadlines, and the heaps of its goroutines.
pub mod Tasks
pub mod Sched
pub mod Cells
pub mod Order
pub mod Heap
pub mod Due
pub mod Scheduler
pub mod Once
