-- ===== src/Server/Tasks.antt =====
-- internal/server/tasks.go: a task is shown, and its patch served, to the user that it belongs to.
--
-- encoding/json on the result of a pull is an argument: `none` is an error, and a result without a
-- patch has none.
use nit.Base.{
  ℕ, not, Option, none, some, [], GoString, text, ◌==◌, is_empty, if◌then◌else◌, Result, ok, err,
  ◌>>=◌, ◌>>◌, refuse_if,
}
use nit.Store.Task.{
  TaskKind, task_push, task_pull, TaskState, queued, succeeded, state_eq, Failure, Task,
}
use nit.Store.Memory.{TaskStore, by_id}
use nit.Store.Tables.{Tables, repository_by_id}
use nit.Auth.{Principal}
use nit.Blob.{BlobError, blob_not_found}
use nit.Queue.{position}
use nit.Server.{ServerState, Deps, ApiError, fails_with, bad_request, internal_error, or_internal}
use nit.Server.Resolve.{or_absent}

abbrev pub unknown_task : ApiError
unknown_task = fails_with 404 (text "unknown_task")

-- `ownedTask`: a task of another user is answered like one that is not there.
unfoldable pub owned_task : Principal → GoString → TaskStore → Result ApiError Task
owned_task p id tasks =
    refuse_if (is_empty id) bad_request
    >> (or_absent unknown_task (by_id id tasks) >>= λ t.
        refuse_if (not (t.user_id == p.user.id)) unknown_task >> ok t)

-- pkg/protocol/task.go, `Task`; the stored result stands for what it decodes to.
pub record TaskView : Type 0 where
  pub id : GoString
  pub kind : TaskKind
  pub state : TaskState
  pub repository : GoString
  pub branch : GoString
  pub queue_position : ℕ
  pub created_at : ℕ
  pub started_at : Option ℕ
  pub finished_at : Option ℕ
  pub error : Option Failure
  pub outcome : GoString

abbrev repository_name : GoString → Tables → GoString
repository_name id t = elim (repository_by_id id t) [ err e ↦ [] | ok r ↦ r.policy_repo_id ]

-- `taskView`, for a result that can be decoded.
unfoldable pub task_view : Task → TaskStore → Tables → Result ApiError TaskView
task_view t tasks tables =
    (if state_eq t.state queued then or_internal (position t.id tasks) else ok 0) >>= λ ahead.
    ok (record {
      id = t.id;
      kind = t.kind;
      state = t.state;
      repository = repository_name t.repository_id tables;
      branch = t.branch;
      queue_position = ahead;
      created_at = t.created_at;
      started_at = t.started_at;
      finished_at = t.finished_at;
      error = t.error;
      outcome = if state_eq t.state succeeded then t.outcome else [];
    })

-- `handleGetTask`.
unfoldable pub handle_get_task :
    {B : Type 0} → Principal → GoString → ServerState B → Result ApiError TaskView
unfolding owned_task task_view
handle_get_task p id s = owned_task p id s.tasks >>= λ t. task_view t s.tasks s.tables

-- `patchDigestOf`: the empty digest is that of no patch.
unfoldable pub patch_digest_of :
    (GoString → Option (Option GoString)) → Task → Result ApiError GoString
patch_digest_of unmarshal t = if is_empty t.outcome then ok [] else elim t.kind [
  | task_push ↦ ok []
  | task_pull ↦ elim (unmarshal t.outcome) [
    | none ↦ err internal_error
    | some none ↦ ok []
    | some (some digest) ↦ ok digest
  ]
]

abbrev pub or_expired : Result BlobError GoString → Result ApiError GoString
or_expired (err blob_not_found) = err (fails_with 410 (text "patch_expired"))
or_expired (err e) = err internal_error
or_expired (ok content) = ok content

-- `handleTaskPatch`: the bytes that are served.
unfoldable pub handle_task_patch :
    {B : Type 0}
    → Deps B
    → (GoString → Option (Option GoString))
    → Principal
    → GoString
    → ServerState B
    → Result ApiError GoString
unfolding owned_task patch_digest_of
handle_task_patch deps unmarshal p id s = do
  t ← owned_task p id s.tasks
  _ ← refuse_if (not (state_eq t.state succeeded)) (fails_with 409 (text "task_not_ready"))
  digest ← patch_digest_of unmarshal t
  _ ← refuse_if (is_empty digest) (fails_with 404 (text "no_patch"))
  or_expired (deps.blobs.get digest s.blobs)
