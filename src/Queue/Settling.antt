-- ===== src/Queue/Settling.antt =====
-- internal/queue/worker.go and queue.go: how the task of a handle ends.
use mathlib.Core.Path.{◌≡◌}
use nit.Base.{
  ℕ, text, none, ◌≢◌, ◌⊎◌, ◌<◌, ◌≤◌, Bool, true, false, some, none, ok, err, Result, GoString,
}
use nit.Store.Task.{Task, Failure, queued, succeeded, failed}
use nit.Store.Memory.{TaskStore, task_at}
use nit.Queue.{Limits, Handle}
use nit.Queue.Runner.{HandlerError}

-- The codes of the errors that no retry can help.
abbrev pub IsPermanent : GoString → Type 0
IsPermanent code =
    (code ≡ text "unauthorized_paths")
    ⊎ ((code ≡ text "unknown_repository")
        ⊎ ((code ≡ text "stale_sync_point")
            ⊎ ((code ≡ text "unknown_sync_point")
                ⊎ ((code ≡ text "patch_too_large") ⊎ (code ≡ text "unsupported_version")))))

-- The protocol error in a handler's error, or an internal one with its text.
abbrev pub Reports : HandlerError → Failure → Type 0
Reports e f =
    (e.protocol ≡ some f)
    ⊎ ((e.protocol ≡ none) × (f ≡ record { code = text "internal"; message = e.message }))

-- A task that is left after a failure, with the error that the handler reported.
pub record IsFailure (limits : Limits) (attempts : ℕ) (e : HandlerError) (t final : Task)
    : Type 0 where
  pub attempts_kept : final.attempts ≡ t.attempts
  pub cause : Failure
  pub reported : Reports e cause
  pub error : final.error ≡ some cause
  pub outcome :
      ((final.state ≡ queued) × (attempts < limits.max_attempts) × (¬ IsPermanent cause.code))
      ⊎ ((final.state ≡ failed) × ((limits.max_attempts ≤ attempts) ⊎ IsPermanent cause.code))

-- How the runner leaves a task, of which `attempts` runs were started.
abbrev pub Ends : Limits → ℕ → Bool → Result HandlerError GoString → Task → Task → Type 0
Ends limits attempts shutting_down (ok result) t final =
    (final.state ≡ succeeded) × (final.outcome ≡ result) × (final.attempts ≡ t.attempts)
Ends limits attempts shutting_down (err e) t final =
    ((shutting_down ≡ true)
      × (e.is_canceled ≡ true)
      × (final.state ≡ queued)
      × (final.error ≡ none))
    ⊎ (((shutting_down ≡ false) ⊎ (e.is_canceled ≡ false)) × IsFailure limits attempts e t final)

-- A task that was written: the store after it.
record Wrote (id : GoString) (u : Task) (s after : TaskStore) : Type 0 where
  pub stored : task_at id after ≡ some u
  pub others : (other : GoString) → other ≢ id → task_at other after ≡ task_at other s

-- How a handle's task ends when its lease still holds.
pub record IsSettled (limits : Limits) (shutting_down : Bool)
    (outcome : Result HandlerError GoString) (h : Handle) (t : Task) (s after : TaskStore)
    : Type 0 where
  pub final : Task
  pub stored : task_at h.task.id after ≡ some final
  pub ends : Ends limits h.task.attempts shutting_down outcome t final
  pub unleased : final.lease ≡ none
  pub others : (id : GoString) → id ≢ h.task.id → task_at id after ≡ task_at id s
