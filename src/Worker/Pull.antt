-- ===== src/Worker/Pull.antt =====
-- internal/worker/pull.go, `handlePull`: the projection of a branch for the reader who asked, and
-- the sync point that goes with it.
use nit.Base.{
  ℕ, ◌/◌, Bool, not, none, some, [], ◌∷◌, GoString, text, ◌==◌, is_empty, if◌then◌else◌, Result, ok,
  err, ◌>>=◌, pos,
}
use nit.Policy.Pattern.{Doublestar}
use nit.Policy.Engine.{Policy}
use nit.Patch.Parse.{Gitdiff}
use nit.Store.Task.{Task}
use nit.Store.SyncPoints.{put_sync_point}
use nit.Store.Tables.{RepositoryRow, repository_by_policy_id}
use nit.Audit.Trail.{AuditRecord}
use nit.Tokens.{sign}
use nit.PullCache.{Entry}
use nit.Taskspec.{PullSpec}
use nit.Worker.State.{
  TaskError, permanent, transient, PullResult, WorkerDeps, WorkerState, note_work, or_transient,
  some_or, worker_policy_for,
}
use nit.Worker.Filter.{reader_of}
use nit.Worker.Projection.{find_projection}

module _ ⦃ds : Doublestar⦄ ⦃gd : Gitdiff⦄ {B G : Type 0} (deps : WorkerDeps B G) (spec : PullSpec)
    (now : ℕ) where
  -- `recordPullSyncPoint`.
  unfoldable pub record_pull_sync_point :
      RepositoryRow
      → GoString
      → Policy
      → WorkerState B G
      → WorkerState B G × Result TaskError GoString
  record_pull_sync_point repo tip policy s = (
    record s {
      sync_points =
          put_sync_point
            (record {
              tenant_id = deps.tenant;
              workspace_id = spec.workspace_id;
              repository_id = repo.id;
              branch = spec.branch;
              upstream_commit = tip;
              policy_version = policy.version;
              created_at = 0;
              updated_at = now;
            })
            s.sync_points;
    },
    or_transient (
        sign deps.codec (now / 1000000000) deps.signer (record {
          workspace = spec.workspace_id;
          repository = repo.id;
          branch = spec.branch;
          upstream_commit = tip;
          policy_version = policy.version;
          issued_at = pos (now / 1000000000);
        })),
  )

  abbrev delivered_record : Task → RepositoryRow → Policy → GoString → Bool → AuditRecord
  delivered_record task repo policy tip reused = record {
    id = 0;
    tenant_id = deps.tenant;
    occurred_at = now;
    actor_user_id = spec.user_id;
    actor_label = spec.policy_user_id;
    action = text "pull.delivered";
    repository_id = repo.id;
    branch = spec.branch;
    path = [];
    effect = [];
    reason = [];
    rule_id = [];
    guard = [];
    policy_version = policy.version;
    request_id = spec.request_id;
    task_id = task.id;
    detail = deps.detail (
        (text "upstream_commit", tip)
        ∷ (text "from", spec.from_commit)
        ∷ (text "reused_projection", if reused then text "true" else text "false")
        ∷ []);
  }

  abbrev pull_result : Policy → GoString → GoString → Entry → PullResult
  pull_result policy tip token entry = record {
    patch = entry.patch;
    next_sync = token;
    policy_version = policy.version;
    upstream_commit = tip;
    files_total = entry.files_total;
    files_delivered = entry.files_delivered;
    files_withheld = entry.files_withheld;
  }

  abbrev no_entry : Entry
  no_entry = record { patch = none; files_total = 0; files_delivered = 0; files_withheld = 0 }

  abbrev written_result : PullResult → Result TaskError GoString
  written_result r = some_or transient (deps.marshal_pull_result r)

  -- The workspace is where the branch is: only the sync point moves.
  unfoldable pub finish_current :
      RepositoryRow
      → Policy
      → GoString
      → WorkerState B G
      → WorkerState B G × Result TaskError GoString
  unfolding record_pull_sync_point
  finish_current repo policy tip s =
      let (s', token) = record_pull_sync_point repo tip policy s in
      (s', token >>= λ t. written_result (pull_result policy tip t no_entry))

  -- The end of `handlePull`.
  unfoldable pub finish_pull :
      Task
      → RepositoryRow
      → Policy
      → GoString
      → Entry × Bool
      → WorkerState B G
      → WorkerState B G × Result TaskError GoString
  unfolding record_pull_sync_point
  finish_pull task repo policy tip (entry, reused) s =
      let (s', token) = record_pull_sync_point repo tip policy s in
      elim token [
        | err e ↦ (s', err e)
        | ok t ↦ (
          note_work deps.has_sink now spec.repository (delivered_record task repo policy tip reused)
              s',
          written_result (pull_result policy tip t entry),
        )
      ]

  -- From the base of the diff on; an empty commit stands for the empty tree.
  unfoldable pub deliver :
      Task
      → RepositoryRow
      → Policy
      → GoString
      → WorkerState B G
      → WorkerState B G × Result TaskError GoString
  unfolding reader_of find_projection finish_pull
  deliver task repo policy tip s =
      elim (if is_empty spec.from_commit
        then deps.git.empty_tree s.git
        else some spec.from_commit) [
          | none ↦ (s, err transient)
          | some from ↦ elim (reader_of policy spec.policy_user_id) [
            | err e ↦ (s, err e)
            | ok reader ↦
                let (s', found) = find_projection deps spec now repo policy from tip reader s in
                elim found [
                  | err e ↦ (s', err e)
                  | ok projection ↦ finish_pull task repo policy tip projection s'
                ]
          ]
        ]

  -- From the tip of the branch on.
  unfoldable pub pull_from_tip :
      Task → GoString → WorkerState B G → WorkerState B G × Result TaskError GoString
  unfolding worker_policy_for finish_current deliver
  pull_from_tip task tip s = elim (worker_policy_for deps.policies deps.tenant task.tenant_id) [
    | err e ↦ (s, err e)
    | ok policy ↦ elim (repository_by_policy_id deps.tenant spec.repository s.tables) [
      | err e ↦ (s, err transient)
      | ok repo ↦
          if spec.from_commit == tip
          then finish_current repo policy tip s
          else deliver task repo policy tip s
    ]
  ]

  unfoldable pub perform_pull : Task → WorkerState B G → WorkerState B G × Result TaskError GoString
  unfolding pull_from_tip
  perform_pull task s = elim (deps.git.authenticated_remote spec.forge spec.remote) [
    | none ↦ (s, err transient)
    | some remote ↦
        let (g, there) = deps.git.checkout_branch spec.remote remote spec.branch s.git in
        let moved = record s { git = g } in
        if not there then (moved, err transient) else elim (deps.git.head g) [
          | none ↦ (moved, err transient)
          | some tip ↦ pull_from_tip task tip moved
        ]
  ]

module _ ⦃ds : Doublestar⦄ ⦃gd : Gitdiff⦄ where
  -- `handlePull`.
  unfoldable pub work_pull :
      {B G : Type 0}
      → WorkerDeps B G
      → ℕ
      → Task
      → WorkerState B G
      → WorkerState B G × Result TaskError GoString
  unfolding perform_pull
  work_pull deps now task s = elim (deps.unmarshal_pull task.payload) [
    | none ↦ (s, err (permanent (text "malformed_task")))
    | some spec ↦ perform_pull deps spec now task s
  ]
