-- ===== src/Policy/Decision.antt =====
-- pkg/policy/decision.go: the answer to one authorization question, with its explanation. `Reason`
-- is a string type: `other_reason` is any string that is none of its constants.
use mathlib.Core.List.{[]}
use mathlib.Core.Bool.{Bool, false}
use nit.Base.{GoString}
use nit.Policy.Rule.{Effect, deny}

pub data Reason : Type 0 where
  allowed_by_rule denied_by_rule no_matching_rule unknown_repository user_disabled : Reason
  other_reason : GoString → Reason

pub record Decision : Type 0 where
  pub allowed : Bool
  pub effect : Effect
  pub reason : Reason
  pub rule_id : GoString
  pub pattern : GoString
  pub description : GoString
  pub policy_version : GoString

abbrev pub denied : Reason → GoString → Decision
denied reason version = record {
  allowed = false;
  effect = deny;
  reason = reason;
  rule_id = [];
  pattern = [];
  description = [];
  policy_version = version;
}
