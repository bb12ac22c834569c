-- ===== src/Consensus.antt =====
-- consensus.go: the consensus object and its operations, a module for each part.
pub mod State
pub mod Timing
pub mod Timeouts
pub mod Leaders
pub mod Rounds
pub mod RoundList
pub mod InOrder
pub mod Frames
pub mod Scanned
pub mod Progress
pub mod Joining
pub mod Monotone
pub mod Ticking
pub mod Reachable
pub mod Proposals
pub mod Checks
pub mod Verify
pub mod Certificates
pub mod Agreement
pub mod Conflicts
pub mod Validated
pub mod Choice
pub mod Starting
pub mod Latest
pub mod Selection
pub mod Synced
pub mod Crash
pub mod Send
pub mod Locks
pub mod LockRules
pub mod Locked
pub mod Handlers
pub mod Receive
pub mod Update
pub mod Peers
pub mod Config
pub mod Neighbours
pub mod Collected
pub mod Votes
pub mod Tally
pub mod Convinced
pub mod Whole
pub mod Stale
