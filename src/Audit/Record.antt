-- ===== src/Audit/Record.antt =====
-- pkg/audit/audit.go: the records of decisions that a sink receives, and several sinks as one.
use nit.Base.{ℕ, GoString}

pub record Record : Type 0 where
  pub occurred_at : ℕ
  pub actor : GoString
  pub action : GoString
  pub repository : GoString
  pub branch : GoString
  pub path : GoString
  pub effect : GoString
  pub reason : GoString
  pub rule_id : GoString
  pub guard : GoString
  pub policy_version : GoString
  pub request_id : GoString
  pub task_id : GoString
