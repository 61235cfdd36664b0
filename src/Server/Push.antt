-- ===== src/Server/Push.antt =====
-- internal/server/push.go, `handlePush`: a change is deduplicated, resolved, authorized, stored and
-- queued, in this order.
use nit.Base.{
  ℕ, Bool, true, false, not, ◌&&◌, none, some, [], ◌++◌, GoString, text, ◌==◌, is_empty, length,
  if◌then◌else◌, Result, ok, err, ◌>>=◌, ◌>>◌, refuse_if, pos,
}
use nit.Policy.Pattern.{Doublestar}
use nit.Policy.Decision.{}
use nit.Policy.Engine.{Policy, evaluate}
use nit.Patch.Parse.{Gitdiff, ChangeSet, parse}
use nit.Patch.Sections.{ParseError}
use nit.Enforce.Check.{}
use nit.Enforce.Pass.{Mode, reject, strip, Options, Outcome, push, all_denials}
use nit.Store.Task.{task_push, unset, Task, StoreError, not_found}
use nit.Store.Memory.{TaskStore, by_request_id}
use nit.Store.Directory.{UserRow}
use nit.Store.Tables.{Workspace, RepositoryRow, push_patch}
use nit.Auth.{Principal}
use nit.Compress.{encoding_none}
use nit.Taskspec.{PushSpec}
use nit.Queue.{submit, position, partition_key}
use nit.Server.{ServerState, Deps, ApiError, bad_request, internal_error, or_internal, record_audit}
use nit.Server.Resolve.{
  check_protocol_version, resolve_repository, resolve_workspace, resolve_base_commit, policy_for,
}
use nit.Server.Patches.{load_patch, store_patch}
use nit.Server.Report.{PushRequest, PushAnswer, empty_report, push_report, push_records}

-- The tests of the request alone.
unfoldable pub check_push : PushRequest → Result ApiError (Unit {0})
check_push req =
    check_protocol_version req.protocol_version
    >> (refuse_if (is_empty req.request_id) bad_request
        >> (refuse_if (is_empty req.branch) bad_request
            >> refuse_if (is_empty req.message && not req.dry_run) bad_request))

-- `respondExistingPush`.
unfoldable pub respond_existing_push : Task → TaskStore → PushAnswer
respond_existing_push t tasks = or_internal (position t.id tasks) >>= λ n.
    ok (202, record { task_id = t.id; accepted = true; report = empty_report; queue_position = n })

abbrev pub display_name : UserRow → GoString
display_name u = if is_empty u.display_name then u.policy_user_id else u.display_name

abbrev pub is_not_found : StoreError → Bool
is_not_found not_found = true
is_not_found e = false

-- Any error of `Parse` is the client's.
abbrev pub or_unparsed : Result ParseError ChangeSet → Result ApiError ChangeSet
or_unparsed (err e) = err bad_request
or_unparsed (ok set) = ok set

abbrev pub mode_of : PushRequest → Mode
mode_of req = if req.mode == text "strip" then strip else reject

-- What stands when the enforcement pass is done.
pub record Authorized : Type 0 where
  pub repo : RepositoryRow
  pub workspace : Workspace
  pub base_commit : GoString
  pub set : ChangeSet
  pub policy : Policy
  pub result : Outcome

module _ ⦃ds : Doublestar⦄ ⦃gd : Gitdiff⦄ {B : Type 0} (deps : Deps B) (p : Principal)
    (req : PushRequest) where
  abbrev pub push_options : RepositoryRow → Policy → Options
  push_options repo policy = record {
    engine = some (evaluate policy);
    repo = repo.policy_repo_id;
    ref = text "refs/heads/" ++ req.branch;
    subject = p.subject;
    guards = deps.guards;
  }

  -- From the lookup of the repository to the pass: nothing is written.
  unfoldable pub authorize : ServerState B → Result ApiError Authorized
  authorize s = do
    repo ← resolve_repository p.tenant req.repository s.tables
    workspace ← resolve_workspace p.user.id req.workspace s.tables
    base_commit ←
        resolve_base_commit deps.codec deps.signer req.base_sync workspace.id repo.id req.branch
          s.sync_points
    raw ← load_patch deps req.patch s.blobs
    set ← or_unparsed (parse raw)
    policy ← policy_for deps.policies p.tenant
    result ← or_internal (push set (push_options repo policy) (mode_of req))
    ok (record {
      repo = repo;
      workspace = workspace;
      base_commit = base_commit;
      set = set;
      policy = policy;
      result = result;
    })

  abbrev pub push_spec : Authorized → GoString → PushSpec
  push_spec a digest = record {
    request_id = req.request_id;
    repository = a.repo.policy_repo_id;
    remote = a.repo.remote;
    forge = a.repo.forge;
    branch = req.branch;
    base_commit = a.base_commit;
    patch_digest = digest;
    patch_encoding = encoding_none;
    message = req.message;
    dropped_files = pos (length a.result.dropped);
    author_name = display_name p.user;
    author_email = p.user.email;
    user_id = p.user.id;
    workspace_id = a.workspace.id;
    policy_user_id = p.user.policy_user_id;
    policy_version = a.policy.version;
  }

  module _ (now : ℕ) where
    abbrev pub push_task : Authorized → GoString → Task
    push_task a payload = record {
      id = [];
      tenant_id = p.tenant;
      request_id = req.request_id;
      kind = task_push;
      state = unset;
      user_id = p.user.id;
      workspace_id = a.workspace.id;
      repository_id = a.repo.id;
      branch = req.branch;
      partition_key = partition_key task_push a.repo.policy_repo_id req.branch;
      payload = payload;
      outcome = [];
      error = none;
      attempts = 0;
      lease = none;
      created_at = now;
      updated_at = 0;
      started_at = none;
      finished_at = none;
    }

    abbrev queued_answer : Authorized → TaskStore → Result StoreError (Task × Bool) → PushAnswer
    queued_answer a tasks (err e) = err internal_error
    queued_answer a tasks (ok (t, _)) = or_internal (position t.id tasks) >>= λ n. ok (
      202,
      record { task_id = t.id; accepted = true; report = push_report a.result; queue_position = n },
    )

    -- From the specification to the answer.
    unfoldable pub enqueue_push : Authorized → GoString → ServerState B → ServerState B × PushAnswer
    enqueue_push a digest s = elim (deps.marshal_push (push_spec a digest)) [
      | none ↦ (s, err internal_error)
      | some payload ↦
          let (tasks, submitted) = submit now (push_task a payload) s.tasks in
          (record s { tasks = tasks }, queued_answer a tasks submitted)
    ]

    unfoldable pub store_and_enqueue : Authorized → ServerState B → ServerState B × PushAnswer
    unfolding enqueue_push
    store_and_enqueue a s =
        let (stored, blob) = store_patch deps p.tenant now a.result.patch push_patch none s in
        elim blob [ err e ↦ (stored, err e) | ok enforced ↦ enqueue_push a enforced.digest stored ]

    -- What follows the audit.
    unfoldable pub conclude_push : Authorized → ServerState B → ServerState B × PushAnswer
    unfolding store_and_enqueue push_report
    conclude_push a s =
        if a.result.rejected
        then (
          s,
          err (record {
            status = 403;
            code = text "unauthorized_paths";
            denials = all_denials a.result.verdicts;
          }),
        )
        else if req.dry_run
        then (
          s,
          ok (
            200,
            record {
              task_id = [];
              accepted = false;
              report = push_report a.result;
              queue_position = 0;
            },
          ),
        )
        else if is_empty a.result.patch
        then (s, err bad_request)
        else store_and_enqueue a s

    unfoldable pub settle_push : Authorized → ServerState B → ServerState B × PushAnswer
    unfolding conclude_push push_records
    settle_push a s = conclude_push a (
        record_audit deps.has_sink now a.repo.policy_repo_id
          (push_records now p a.repo req a.result) s)

    unfoldable pub admit_push : ServerState B → ServerState B × PushAnswer
    unfolding authorize settle_push
    admit_push s = elim (authorize s) [ err e ↦ (s, err e) | ok a ↦ settle_push a s ]

    unfoldable pub handle_push : ServerState B → ServerState B × PushAnswer
    unfolding check_push admit_push respond_existing_push
    handle_push s = elim (check_push req) [
      | err e ↦ (s, err e)
      | ok _ ↦ elim (by_request_id p.tenant req.request_id s.tasks) [
        | ok existing ↦ (s, respond_existing_push existing s.tasks)
        | err e ↦ if is_not_found e then admit_push s else (s, err internal_error)
      ]
    ]
