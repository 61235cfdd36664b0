-- ===== src/Policy.antt =====
-- pkg/policy: who may do what to which path of which repository.
pub mod Identity
pub mod Pattern
pub mod Rule
pub mod Decision
pub mod Engine
pub mod Rules
pub mod Groups
pub mod Compile
pub mod Profile
