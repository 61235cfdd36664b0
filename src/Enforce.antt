-- ===== src/Enforce.antt =====
-- pkg/enforce: a policy applied to a patch, in the write and in the read direction.
pub mod Check
pub mod Guards
pub mod Pass
pub mod Direct
pub mod Verdicts
pub mod Outcome
pub mod Through
