-- ===== src/Worker/Push.antt =====
-- internal/worker/push.go: an authorized patch is applied, published, and recorded.
--
-- The working tree is only touched between its checkout and its release, so that part is a step on
-- the state of git alone.
use nit.Base.{
  take, ℕ, zero, ◌/◌, Bool, true, false, not, ◌&&◌, none, some, [], ◌∷◌, GoString, text, ◌==◌,
  length, ltb, if◌then◌else◌, Result, ok, err, ◌>>=◌, ◌>>◌, refuse_if, ℤ, pos,
}
use nit.Store.Task.{Task, StoreError, conflict, not_found}
use nit.Store.SyncPoints.{SyncPoint, compare_and_set}
use nit.Store.Tables.{RepositoryRow, repository_by_policy_id}
use nit.Audit.Trail.{AuditRecord}
use nit.Tokens.{sign}
use nit.Blob.{one_past, BlobError, blob_not_found}
use nit.Compress.{decompress}
use nit.Taskspec.{PushSpec}
use nit.Worker.Message.{commit_message}
use nit.Worker.State.{
  TaskError, permanent, transient, landed, conflicted, broken, Author, WorkerDeps, WorkerState,
  note_work, or_transient, some_or,
}

abbrev pub conflict_error : TaskError
conflict_error = permanent (text "conflict")

abbrev pub is_zero : ℤ → Bool
is_zero (pos zero) = true
is_zero _ = false

abbrev or_missing_patch : Result BlobError GoString → Result TaskError GoString
or_missing_patch (err blob_not_found) = err (permanent (text "missing_patch"))
or_missing_patch (err e) = err transient
or_missing_patch (ok content) = ok content

-- `loadEnforcedPatch`.
unfoldable pub load_enforced_patch :
    {B G : Type 0} → WorkerDeps B G → PushSpec → B → Result TaskError GoString
load_enforced_patch deps spec blobs =
    or_missing_patch (deps.blobs.get spec.patch_digest blobs) >>= λ raw.
    let read = take (one_past deps.max_patch_bytes) raw in
    refuse_if (ltb deps.max_patch_bytes (length read)) (permanent (text "patch_too_large"))
    >> or_transient (decompress deps.zstd read spec.patch_encoding (pos deps.max_patch_bytes))

-- What was published: the tip that the branch had, the commit, and whether it was rebased.
pub record Published : Type 0 where
  pub tip : GoString
  pub commit : GoString
  pub rebased : Bool

module _ {B G : Type 0} (deps : WorkerDeps B G) (spec : PushSpec) (now : ℕ) where
  abbrev pub author_of : Author
  author_of = record { name = spec.author_name; email = spec.author_email }

  -- `repo.Push` to the authenticated remote, expecting the tip that the task started from.
  unfoldable pub publish : GoString → Published → G → G × Result TaskError Published
  publish remote p g =
      let (g', pushed) = deps.git.push_branch remote spec.branch p.tip g in
      (g', (if pushed then ok p else err conflict_error))

  -- The rebase, if the branch moved since the base.
  unfoldable pub replay : GoString → GoString → GoString → G → G × Result TaskError Published
  unfolding publish
  replay remote tip commit g =
      if tip == spec.base_commit
      then publish remote (record { tip = tip; commit = commit; rebased = false }) g
      else let (g', end) = deps.git.rebase tip author_of g in
        elim end [
          | conflicted ↦ (g', err conflict_error)
          | broken ↦ (g', err transient)
          | landed ↦ elim (deps.git.head g') [
            | none ↦ (g', err transient)
            | some rebased ↦
                publish remote (record { tip = tip; commit = rebased; rebased = true }) g'
          ]
        ]

  unfoldable pub commit_patch : GoString → GoString → GoString → G → G × Result TaskError Published
  unfolding replay
  commit_patch task_id remote tip g =
      let (g', committed) = deps.git.commit_all (commit_message spec task_id) author_of now g in
      elim committed [ none ↦ (g', err transient) | some commit ↦ replay remote tip commit g' ]

  unfoldable pub apply_patch :
      GoString → GoString → GoString → GoString → G → G × Result TaskError Published
  unfolding commit_patch
  apply_patch patch task_id remote tip g =
      let (g', based) = deps.git.checkout_commit spec.base_commit g in
      if not based
      then (g', err conflict_error)
      else let (g2, end) = deps.git.apply patch g' in
        elim end [
          | conflicted ↦ (g2, err conflict_error)
          | broken ↦ (g2, err transient)
          | landed ↦ commit_patch task_id remote tip g2
        ]

  -- From the remote to the publication.
  unfoldable pub land : GoString → GoString → G → G × Result TaskError Published
  unfolding apply_patch
  land patch task_id g = elim (deps.git.authenticated_remote spec.forge spec.remote) [
    | none ↦ (g, err transient)
    | some remote ↦
        let (g', there) = deps.git.checkout_branch spec.remote remote spec.branch g in
        if not there then (g', err transient) else elim (deps.git.head g') [
          | none ↦ (g', err transient)
          | some tip ↦ apply_patch patch task_id remote tip g'
        ]
  ]

  abbrev pub next_point : RepositoryRow → GoString → SyncPoint
  next_point repo commit = record {
    tenant_id = deps.tenant;
    workspace_id = spec.workspace_id;
    repository_id = repo.id;
    branch = spec.branch;
    upstream_commit = commit;
    policy_version = spec.policy_version;
    created_at = 0;
    updated_at = now;
  }

  -- `syncPayload`, signed.
  abbrev pub minted_token : RepositoryRow → GoString → Result TaskError GoString
  minted_token repo commit = or_transient (
      sign deps.codec (now / 1000000000) deps.signer (record {
        workspace = spec.workspace_id;
        repository = repo.id;
        branch = spec.branch;
        upstream_commit = commit;
        policy_version = spec.policy_version;
        issued_at = pos (now / 1000000000);
      }))

  -- The answer to an error of `CompareAndSet`: the client has to pull.
  abbrev no_token : StoreError → Result TaskError GoString
  no_token conflict = ok []
  no_token not_found = ok []
  no_token e = err transient

  -- `advanceSyncPoint`.
  unfoldable pub advance_sync_point :
      GoString → WorkerState B G → WorkerState B G × Result TaskError GoString
  advance_sync_point commit s =
      elim (repository_by_policy_id deps.tenant spec.repository s.tables) [
        | err e ↦ (s, err transient)
        | ok repo ↦
            let (points, e) =
              compare_and_set (next_point repo commit) spec.base_commit s.sync_points in
            (
              record s { sync_points = points },
              elim e [ some failed ↦ no_token failed | none ↦ minted_token repo commit ],
            )
      ]

  -- The sync point moves only when the push was the sole change and nothing was dropped from it.
  unfoldable pub next_sync :
      Published → WorkerState B G → WorkerState B G × Result TaskError GoString
  unfolding advance_sync_point
  next_sync p s =
      if not p.rebased && is_zero spec.dropped_files
      then advance_sync_point p.commit s
      else (s, ok [])

  abbrev push_applied : Task → GoString → AuditRecord
  push_applied task commit = record {
    id = 0;
    tenant_id = deps.tenant;
    occurred_at = now;
    actor_user_id = spec.user_id;
    actor_label = spec.policy_user_id;
    action = text "push.applied";
    repository_id = task.repository_id;
    branch = spec.branch;
    path = [];
    effect = [];
    reason = [];
    rule_id = [];
    guard = [];
    policy_version = spec.policy_version;
    request_id = spec.request_id;
    task_id = task.id;
    detail = deps.detail ((text "upstream_commit", commit) ∷ (text "base", spec.base_commit) ∷ []);
  }

  -- What follows the publication.
  unfoldable pub record_push :
      Task → Published → WorkerState B G → WorkerState B G × Result TaskError GoString
  unfolding next_sync
  record_push task p s =
      let (s', token) = next_sync p s in
      elim token [
        | err e ↦ (s', err e)
        | ok next ↦ (
          note_work deps.has_sink now spec.repository (push_applied task p.commit) s',
          some_or transient (
              deps.marshal_push_result (record {
                upstream_commit = p.commit;
                next_sync = next;
                policy_version = spec.policy_version;
              })),
        )
      ]

  unfoldable pub perform_push : Task → WorkerState B G → WorkerState B G × Result TaskError GoString
  unfolding load_enforced_patch land record_push
  perform_push task s = elim (load_enforced_patch deps spec s.blobs) [
    | err e ↦ (s, err e)
    | ok patch ↦
        let (g, published) = land patch task.id s.git in
        let moved = record s { git = g } in
        elim published [ err e ↦ (moved, err e) | ok p ↦ record_push task p moved ]
  ]

-- `handlePush`.
unfoldable pub work_push :
    {B G : Type 0}
    → WorkerDeps B G
    → ℕ
    → Task
    → WorkerState B G
    → WorkerState B G × Result TaskError GoString
unfolding perform_push
work_push deps now task s = elim (deps.unmarshal_push task.payload) [
  | none ↦ (s, err (permanent (text "malformed_task")))
  | some spec ↦ perform_push deps spec now task s
]
