-- ===== src/Server/Report.antt =====
-- internal/server/push.go and pkg/protocol: what a push asks for, what it is answered, and what is
-- recorded of it.
use nit.Base.{ℕ, Bool, List, [], ◌∷◌, map, GoString, text, length, if◌then◌else◌, Result}
use nit.Policy.Rule.{Effect, allow, deny, other_effect}
use nit.Policy.Decision.{
  Reason, allowed_by_rule, denied_by_rule, no_matching_rule, unknown_repository, user_disabled,
  other_reason,
}
use nit.Enforce.Check.{
  GuardKind, guard_none, guard_symlink, guard_submodule, guard_protected_path, Check,
}
use nit.Enforce.Pass.{Outcome, all_denials}
use nit.Store.Tables.{RepositoryRow}
use nit.Audit.Trail.{AuditRecord}
use nit.Auth.{Principal}
use nit.Taskspec.{PatchBlob}
use nit.Server.{ApiError}
use nit.Server.Resolve.{}

-- pkg/protocol/push.go.
pub record PushRequest : Type 0 where
  pub protocol_version : GoString
  pub request_id : GoString
  pub repository : GoString
  pub branch : GoString
  pub workspace : GoString
  pub base_sync : GoString
  pub message : GoString
  pub patch : PatchBlob
  pub mode : GoString
  pub dry_run : Bool

-- pkg/protocol/common.go, whose denial is the failed check.
pub record PushReport : Type 0 where
  pub policy_version : GoString
  pub files_total : ℕ
  pub files_accepted : ℕ
  pub files_denied : ℕ
  pub denials : List Check

pub record PushResponse : Type 0 where
  pub task_id : GoString
  pub accepted : Bool
  pub report : PushReport
  pub queue_position : ℕ

-- An error, or the status of the answer and its body.
abbrev pub PushAnswer : Type 0
PushAnswer = Result ApiError (ℕ × PushResponse)

abbrev pub empty_report : PushReport
empty_report = record {
  policy_version = [];
  files_total = 0;
  files_accepted = 0;
  files_denied = 0;
  denials = [];
}

-- `pushReport`.
unfoldable pub push_report : Outcome → PushReport
push_report r = record {
  policy_version = r.policy_version;
  files_total = length r.verdicts;
  files_accepted = length r.kept;
  files_denied = length r.dropped;
  denials = all_denials r.verdicts;
}

abbrev pub guard_string : GuardKind → GoString
guard_string guard_none = []
guard_string guard_symlink = text "symlink"
guard_string guard_submodule = text "submodule"
guard_string guard_protected_path = text "protected_path"

abbrev pub effect_string : Effect → GoString
effect_string allow = text "allow"
effect_string deny = text "deny"
effect_string (other_effect s) = s

abbrev pub reason_string : Reason → GoString
reason_string allowed_by_rule = text "allowed_by_rule"
reason_string denied_by_rule = text "denied_by_rule"
reason_string no_matching_rule = text "no_matching_rule"
reason_string unknown_repository = text "unknown_repository"
reason_string user_disabled = text "user_disabled"
reason_string (other_reason s) = s

-- What the records of one push share.
abbrev pub push_record :
    ℕ → Principal → RepositoryRow → PushRequest → Outcome → GoString → AuditRecord
push_record now p repo req r action = record {
  id = 0;
  tenant_id = p.tenant;
  occurred_at = now;
  actor_user_id = p.user.id;
  actor_label = p.user.policy_user_id;
  action = action;
  repository_id = repo.id;
  branch = req.branch;
  path = [];
  effect = [];
  reason = [];
  rule_id = [];
  guard = [];
  policy_version = r.policy_version;
  request_id = req.request_id;
  task_id = [];
  detail = [];
}

abbrev pub denial_record : AuditRecord → Check → AuditRecord
denial_record base c = record base {
  path = c.path;
  effect = effect_string c.decision.effect;
  reason = reason_string c.decision.reason;
  rule_id = c.decision.rule_id;
  guard = guard_string c.guard;
}

-- The records of `auditPush`: one summary, and one for each denial.
unfoldable pub push_records :
    ℕ → Principal → RepositoryRow → PushRequest → Outcome → List AuditRecord
push_records now p repo req r =
    push_record now p repo req r (if r.rejected then text "push.rejected" else text "push.accepted")
    ∷ map (denial_record (push_record now p repo req r (text "push.denied_path")))
        (all_denials r.verdicts)
