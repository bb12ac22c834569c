-- ===== src/Samples.antt =====
-- Concrete objects and runs: the tests of the model, and the theorems at inputs that meet their
-- hypotheses.
pub mod Toy
mod Accepted
mod Running
mod Rules
mod Conflicting
mod Deciding
mod Starts
mod Choosing
mod Validating
mod Agents
mod Timers
mod Convincing
mod Delays
mod Stale
mod Locking
