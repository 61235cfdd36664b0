-- ===== src/Server/Pull.antt =====
-- internal/server/pull.go, `handlePull`: nothing is authorized here; the worker filters what it
-- produces.
use nit.Base.{
  ℕ, Bool, none, some, [], ◌∷◌, GoString, text, is_empty, if◌then◌else◌, Result, ok, err, ◌>>=◌,
  ◌>>◌, refuse_if,
}
use nit.Policy.Engine.{Policy}
use nit.Store.Task.{task_pull, unset, Task, StoreError}
use nit.Store.Memory.{by_request_id}
use nit.Store.Tables.{Workspace, RepositoryRow}
use nit.Audit.Trail.{AuditRecord}
use nit.Auth.{Principal}
use nit.Taskspec.{PullSpec}
use nit.Queue.{submit, partition_key}
use nit.Server.{ServerState, Deps, ApiError, bad_request, internal_error, record_audit}
use nit.Server.Resolve.{
  check_protocol_version, resolve_repository, resolve_workspace, resolve_pull_base, policy_for,
}
use nit.Server.Push.{is_not_found}

-- pkg/protocol/pull.go.
pub record PullRequest : Type 0 where
  pub protocol_version : GoString
  pub request_id : GoString
  pub repository : GoString
  pub branch : GoString
  pub workspace : GoString
  pub sync : GoString

-- An error, or the ID of the task.
abbrev pub PullAnswer : Type 0
PullAnswer = Result ApiError GoString

unfoldable pub check_pull : PullRequest → Result ApiError (Unit {0})
check_pull req =
    check_protocol_version req.protocol_version >> refuse_if (is_empty req.request_id) bad_request

-- What a pull names, resolved.
pub record PullTarget : Type 0 where
  pub repo : RepositoryRow
  pub workspace : Workspace
  pub branch : GoString
  pub from_commit : GoString
  pub policy : Policy

module _ {B : Type 0} (deps : Deps B) (p : Principal) (req : PullRequest) where
  abbrev pub pull_branch : RepositoryRow → GoString
  pull_branch repo = if is_empty req.branch then repo.default_branch else req.branch

  unfoldable pub resolve_pull : ServerState B → Result ApiError PullTarget
  resolve_pull s = do
    repo ← resolve_repository p.tenant req.repository s.tables
    workspace ← resolve_workspace p.user.id req.workspace s.tables
    from_commit ←
        resolve_pull_base deps.codec deps.signer req.sync workspace.id repo.id (pull_branch repo)
    policy ← policy_for deps.policies p.tenant
    ok (record {
      repo = repo;
      workspace = workspace;
      branch = pull_branch repo;
      from_commit = from_commit;
      policy = policy;
    })

  abbrev pub pull_spec : PullTarget → PullSpec
  pull_spec t = record {
    request_id = req.request_id;
    repository = t.repo.policy_repo_id;
    remote = t.repo.remote;
    forge = t.repo.forge;
    branch = t.branch;
    from_commit = t.from_commit;
    user_id = p.user.id;
    workspace_id = t.workspace.id;
    policy_user_id = p.user.policy_user_id;
    policy_version = t.policy.version;
  }

  module _ (now : ℕ) where
    abbrev pub pull_task : PullTarget → GoString → Task
    pull_task t payload = record {
      id = [];
      tenant_id = p.tenant;
      request_id = req.request_id;
      kind = task_pull;
      state = unset;
      user_id = p.user.id;
      workspace_id = t.workspace.id;
      repository_id = t.repo.id;
      branch = t.branch;
      partition_key = partition_key task_pull t.repo.policy_repo_id t.branch;
      payload = payload;
      outcome = [];
      error = none;
      attempts = 0;
      lease = none;
      created_at = now;
      updated_at = 0;
      started_at = none;
      finished_at = none;
    }

    abbrev pull_record : PullTarget → GoString → AuditRecord
    pull_record t task_id = record {
      id = 0;
      tenant_id = p.tenant;
      occurred_at = now;
      actor_user_id = p.user.id;
      actor_label = p.user.policy_user_id;
      action = text "pull.requested";
      repository_id = t.repo.id;
      branch = t.branch;
      path = [];
      effect = [];
      reason = [];
      rule_id = [];
      guard = [];
      policy_version = t.policy.version;
      request_id = req.request_id;
      task_id = task_id;
      detail = [];
    }

    -- The audit comes after the submission, and only if that succeeded.
    abbrev note_pull :
        PullTarget → Result StoreError (Task × Bool) → ServerState B → ServerState B × PullAnswer
    note_pull t (err e) s = (s, err internal_error)
    note_pull t (ok (task, _)) s = (
      record_audit deps.has_sink now t.repo.policy_repo_id (pull_record t task.id ∷ []) s,
      ok task.id,
    )

    unfoldable pub enqueue_pull : PullTarget → ServerState B → ServerState B × PullAnswer
    enqueue_pull t s = elim (deps.marshal_pull (pull_spec t)) [
      | none ↦ (s, err internal_error)
      | some payload ↦
          let (tasks, submitted) = submit now (pull_task t payload) s.tasks in
          note_pull t submitted (record s { tasks = tasks })
    ]

    unfoldable pub admit_pull : ServerState B → ServerState B × PullAnswer
    unfolding resolve_pull enqueue_pull
    admit_pull s = elim (resolve_pull s) [ err e ↦ (s, err e) | ok t ↦ enqueue_pull t s ]

    unfoldable pub handle_pull : ServerState B → ServerState B × PullAnswer
    unfolding check_pull admit_pull
    handle_pull s = elim (check_pull req) [
      | err e ↦ (s, err e)
      | ok _ ↦ elim (by_request_id p.tenant req.request_id s.tasks) [
        | ok existing ↦ (s, ok existing.id)
        | err e ↦ if is_not_found e then admit_pull s else (s, err internal_error)
      ]
    ]
