-- ===== src/Worker.antt =====
-- internal/worker: what a worker makes of a task.
pub mod Message
pub mod State
pub mod Push
pub mod Publish
pub mod Advance
pub mod Filter
pub mod Projection
pub mod Pull
pub mod Shared
