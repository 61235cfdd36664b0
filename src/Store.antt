-- ===== src/Store.antt =====
-- pkg/store and internal/store/memory: the queue of tasks.
pub mod Directory
pub mod Task
pub mod Memory
pub mod Counts
pub mod Invariant
pub mod Dispatch
pub mod Claimed
pub mod Runs
pub mod Fencing
pub mod Lifecycle
pub mod Queue
pub mod SyncPoints
pub mod Listing
pub mod Tables
pub mod Artifacts
