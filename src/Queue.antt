-- ===== src/Queue.antt =====
-- internal/queue/queue.go: the work queue over the task store.
--
-- The store is the one in memory. An operation of the queue is one call of the store, with the
-- instant that the clock shows; the goroutine that renews a lease is a step per tick.
pub mod Runner
pub mod Keys
pub mod Submission
pub mod Settling
pub mod Serial
use mathlib.Core.List.{List, [], ◌∷◌, ◌++◌}
use nit.Base.{
  ℕ, zero, suc, ◌+◌, ◌/◌, Bool, true, false, not, ◌&&◌, ◌||◌, Option, none, some, GoString, text,
  ◌==◌, any, ltb, nat_eq, if◌then◌else◌, Result, ok, err, ◌>>=◌, ℤ, pos, negsuc, or_default,
}
use nit.Store.Task.{
  TaskKind, task_push, task_pull, TaskState, unset, queued, Failure, Task, StoreError,
  duplicate_request, ClaimOptions,
}
use nit.Store.Memory.{
  TaskStore, create, claim, heartbeat, complete, fail, release_expired, queue_position,
  default_state,
}

pub record QueueOptions : Type 0 where
  pub lease_for : ℤ
  pub heartbeat_every : ℤ
  pub max_attempts : ℤ
  pub poll_every : ℤ

-- The options with their defaults, durations in nanoseconds.
pub record Limits : Type 0 where
  pub lease_for : ℕ
  pub heartbeat_every : ℕ
  pub max_attempts : ℕ
  pub poll_every : ℕ

abbrev pub apply_defaults : QueueOptions → Limits
apply_defaults o =
    let lease = or_default o.lease_for 60000000000 in
    record {
      lease_for = lease;
      heartbeat_every = or_default o.heartbeat_every (lease / 3);
      max_attempts = or_default o.max_attempts 3;
      poll_every = or_default o.poll_every 1000000000;
    }

-- Pushes serialize per repository and branch; pulls have no key.
unfoldable pub partition_key : TaskKind → GoString → GoString → GoString
partition_key task_push repository branch = repository ++ (text ":" ++ branch)
partition_key task_pull repository branch = []

-- What `Submit` fills in before it calls the store.
abbrev pub prepared : ℕ → Task → Task
prepared clock t = record t {
  created_at = if nat_eq t.created_at 0 then clock else t.created_at;
  state = default_state t.state;
}

-- The store in memory returns the existing task with `ErrDuplicateRequest`, so that `Submit` has
-- no need to look it up.
abbrev pub submission : Task → Option StoreError → Result StoreError (Task × Bool)
submission t none = ok (t, false)
submission t (some duplicate_request) = ok (t, true)
submission t (some e) = err e

-- `Submit`: the task, and whether it was there before.
unfoldable pub submit : ℕ → Task → TaskStore → TaskStore × Result StoreError (Task × Bool)
submit clock t s =
    let (after, (created, e)) = create clock (prepared clock t) s in (after, submission created e)

-- A claimed task as it stood when it was claimed, and the token of its lease.
pub record Handle : Type 0 where
  pub task : Task
  pub token : GoString

abbrev pub claim_options : Limits → ℕ → GoString → List TaskKind → ClaimOptions
claim_options limits now holder kinds = record {
  holder = holder;
  kinds = kinds;
  lease_for = pos limits.lease_for;
  now = now;
}

-- `Queue.Claim`. The token is the one that the store drew.
unfoldable pub claim_task :
    Limits
    → ℕ
    → GoString
    → GoString
    → List TaskKind
    → TaskStore
    → TaskStore × Result StoreError Handle
claim_task limits now token holder kinds s =
    let (after, result) = claim now token (claim_options limits now holder kinds) s in
    (after, result >>= λ t. ok (record { task = t; token = token }))

-- One tick of `keepAlive`: whether the lease is renewed. Any error cancels the handle.
unfoldable pub keep_alive : Limits → ℕ → Handle → TaskStore → TaskStore × Bool
keep_alive limits now h s =
    let (after, e) = heartbeat h.task.id h.token (now + limits.lease_for) s in
    (after, elim e [ none ↦ true | some _ ↦ false ])

unfoldable pub complete_task : ℕ → GoString → Handle → TaskStore → TaskStore × Option StoreError
complete_task now result h s = complete h.task.id h.token result now s

abbrev pub permanent_codes : List GoString
permanent_codes =
    text "unauthorized_paths"
    ∷ text "unknown_repository"
    ∷ text "stale_sync_point"
    ∷ text "unknown_sync_point"
    ∷ text "patch_too_large"
    ∷ text "unsupported_version"
    ∷ []

unfoldable pub is_permanent : GoString → Bool
is_permanent code = any (λ c. code == c) permanent_codes

abbrev pub has_permanent_cause : Option Failure → Bool
has_permanent_cause none = false
has_permanent_cause (some cause) = is_permanent cause.code

-- Whether `Fail` puts the task back.
unfoldable pub wants_requeue : Limits → Option Failure → Task → Bool
wants_requeue limits cause t = ltb t.attempts limits.max_attempts && not (has_permanent_cause cause)

abbrev pub requeue_answer : Bool → Option StoreError → Result StoreError Bool
requeue_answer requeue none = ok requeue
requeue_answer requeue (some e) = err e

-- `Handle.Fail`: whether the task was put back.
unfoldable pub fail_task :
    Limits → ℕ → Option Failure → Handle → TaskStore → TaskStore × Result StoreError Bool
fail_task limits now cause h s =
    let requeue = wants_requeue limits cause h.task in
    let (after, e) = fail h.task.id h.token cause requeue now s in (after, requeue_answer requeue e)

-- `Release`, which records no failure.
unfoldable pub release_task : ℕ → Handle → TaskStore → TaskStore × Option StoreError
release_task now h s = fail h.task.id h.token none true now s

unfoldable pub reap_expired : ℕ → TaskStore → TaskStore × ℕ
reap_expired now s = release_expired now s

unfoldable pub position : GoString → TaskStore → Result StoreError ℕ
position id s = queue_position id s
