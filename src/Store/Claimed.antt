-- ===== src/Store/Claimed.antt =====
-- internal/store/memory/tasks.go: what `Claim` does, stated without its tests and its order.
use mathlib.Core.List.{Memᴰ}
use mathlib.Core.List.Memᴰ
use nit.Base.{
  ℕ, ◌+◌, ◌<◌, ◌≡◌, ◌≢◌, ◌⊎◌, true, some, List, [], GoString, All, ok, err, Result, str_ltb,
}
use nit.Store.Task.{Task, TaskKind, queued, running, StoreError, no_task, ClaimOptions, Lease}
use nit.Store.Memory.{TaskStore, task_at, lease_duration}

-- A task that a claim for some kinds may take: it is queued, of a kind that is wanted, where no kinds
-- stand for all, and no task of its partition runs, if it has one.
pub record IsFree (kinds : List TaskKind) (ts : List Task) (t : Task) : Type 0 where
  pub waits : t.state ≡ queued
  pub wanted : (kinds ≡ []) ⊎ Memᴰ t.kind kinds
  pub idle :
      (t.partition_key ≡ [])
      ⊎ All (λ u. (u.state ≢ running) ⊎ (u.partition_key ≢ t.partition_key)) ts

-- Created before; of two tasks created at once, the one with the lesser ID.
abbrev pub IsOlder : Task → Task → Type 0
IsOlder u t =
    (u.created_at < t.created_at) ⊎ ((u.created_at ≡ t.created_at) × (str_ltb u.id t.id ≡ true))

-- A task under a new lease, with one more run.
pub record IsLeased (opts : ClaimOptions) (now : ℕ) (token : GoString) (before t : Task)
    : Type 0 where
  pub id : t.id ≡ before.id
  pub payload : t.payload ≡ before.payload
  pub runs : t.state ≡ running
  pub counted : t.attempts ≡ before.attempts + 1
  pub lease : Lease
  pub held : t.lease ≡ some lease
  pub holder : lease.holder ≡ opts.holder
  pub token_drawn : lease.token ≡ token
  pub expires_at : lease.expires_at ≡ now + lease_duration opts.lease_for

module _ (opts : ClaimOptions) (now : ℕ) (token : GoString) (s : TaskStore) where
  pub record IsTaken (t : Task) (after : TaskStore) : Type 0 where
    pub before : Task
    pub member : Memᴰ before s.tasks
    pub free : IsFree opts.kinds s.tasks before
    pub oldest : All (λ u. ¬ (IsFree opts.kinds s.tasks u × IsOlder u before)) s.tasks
    pub leased_to : IsLeased opts now token before t
    pub stored : task_at t.id after ≡ some t
    pub others : (id : GoString) → id ≢ t.id → task_at id after ≡ task_at id s

  -- What a claim may do.
  abbrev pub IsClaimed : TaskStore × Result StoreError Task → Type 0
  IsClaimed (after, err e) =
      (e ≡ no_task) × (after ≡ s) × All (λ u. ¬ IsFree opts.kinds s.tasks u) s.tasks
  IsClaimed (after, ok t) = IsTaken t after
