-- ===== src/Store/Memory/Leases.antt =====
-- internal/store/memory/tasks.go: how a task is leased, released, finished and cancelled.
use nit.Base.{
  ℕ, zero, suc, ◌+◌, Bool, true, false, not, ◌&&◌, ◌||◌, Option, none, some, List, [], ◌∷◌, map,
  GoString, ◌==◌, is_empty, any, keep, ltb, nat_eq, if◌then◌else◌, Result, ok, err, ℤ, pos, negsuc,
  count, sort_by,
}
use nit.Store.Task.{
  TaskKind, queued, running, succeeded, failed, cancelled, state_eq, Failure, Lease, expired, Task,
  StoreError, not_found, no_task, lease_lost, conflict, ClaimOptions,
}
use nit.Store.Memory.Records.{TaskStore, task_at, update, contains_kind, older}

-- The tasks whose lease has run out at `now`.
abbrev pub is_stale : ℕ → Task → Bool
is_stale now t = state_eq t.state running && expired t.lease now

abbrev pub requeued : ℕ → Task → Task
requeued now t = record t { state = queued; lease = none; started_at = none; updated_at = now }

unfoldable pub release : ℕ → List Task → List Task
release now [] = []
release now (t ∷ ts) =
    let rest = release now ts in if is_stale now t then requeued now t ∷ rest else t ∷ rest

-- `ReleaseExpired` and `releaseExpiredLocked`: the store after it, and how many tasks it released.
unfoldable pub release_expired : ℕ → TaskStore → TaskStore × ℕ
release_expired now s = (record s { tasks = release now s.tasks }, count (is_stale now) s.tasks)

-- A task occupies its partition while it runs, if it has a partition.
abbrev pub occupies : Task → Bool
occupies t = state_eq t.state running && not (is_empty t.partition_key)

unfoldable pub busy_partitions : List Task → List GoString
busy_partitions ts = map (λ t. t.partition_key) (keep occupies ts)

abbrev pub is_busy : List GoString → GoString → Bool
is_busy busy key = any (λ k. k == key) busy

unfoldable pub is_candidate : List TaskKind → List GoString → Task → Bool
is_candidate kinds busy t =
    state_eq t.state queued
    && ((is_empty kinds || contains_kind kinds t.kind)
        && (is_empty t.partition_key || not (is_busy busy t.partition_key)))

-- One minute, where the option is not positive.
abbrev pub lease_duration : ℤ → ℕ
lease_duration (pos zero) = 60000000000
lease_duration (pos (suc n)) = suc n
lease_duration (negsuc n) = 60000000000

abbrev pub first_start : Option ℕ → ℕ → Option ℕ
first_start none now = some now
first_start (some at) now = some at

-- What `Claim` writes into the task that it takes.
abbrev pub leased : ClaimOptions → ℕ → GoString → Task → Task
leased opts now token t = record t {
  state = running;
  attempts = t.attempts + 1;
  updated_at = now;
  lease = some (record {
    holder = opts.holder;
    token = token;
    expires_at = now + lease_duration opts.lease_for;
  });
  started_at = first_start t.started_at now;
}

-- `now := opts.Now`, or the clock where that is the zero time.
abbrev pub claim_time : ℕ → ClaimOptions → ℕ
claim_time clock opts = if nat_eq opts.now 0 then clock else opts.now

-- The candidates of a claim, in the order of the queue.
unfoldable pub candidates : List TaskKind → List Task → List Task
candidates kinds ts = sort_by older (keep (is_candidate kinds (busy_partitions ts)) ts)

unfoldable pub take_first :
    ClaimOptions → ℕ → GoString → TaskStore → List Task → TaskStore × Result StoreError Task
take_first opts now token s [] = (s, err no_task)
take_first opts now token s (t ∷ ts) =
    (record s { tasks = update t.id (leased opts now token) s.tasks }, ok (leased opts now token t))

unfoldable pub claim : ℕ → GoString → ClaimOptions → TaskStore → TaskStore × Result StoreError Task
claim clock token opts s =
    let now = claim_time clock opts in
    let s' = (release_expired now s).0 in
    take_first opts now token s' (candidates opts.kinds s'.tasks)

-- Fencing: only the holder of the current lease may change a task.
abbrev pub holds_token : Option Lease → GoString → Option StoreError
holds_token none token = some lease_lost
holds_token (some l) token = if l.token == token then none else some lease_lost

unfoldable pub check_lease : GoString → Task → Option StoreError
check_lease token t =
    if state_eq t.state running then holds_token t.lease token else some lease_lost

abbrev pub is_before : ℕ → Option ℕ → Bool
is_before at none = false
is_before at (some start) = ltb at start

unfoldable pub check_finish_order : ℕ → Task → Option StoreError
check_finish_order at t = if is_before at t.started_at then some conflict else none

-- The shape of the operations on one task: find it, refuse if a guard refuses, write to it.
unfoldable pub change :
    GoString
    → (Task → Option StoreError)
    → (Task → Task)
    → TaskStore
    → TaskStore × Option StoreError
change id guard write s = elim (task_at id s) [
  | none ↦ (s, some not_found)
  | some t ↦ elim (guard t) [
    | some e ↦ (s, some e)
    | none ↦ (record s { tasks = update id write s.tasks }, none)
  ]
]

abbrev pub until_lease : ℕ → Option Lease → Option Lease
until_lease at none = none
until_lease at (some l) = some (record l { expires_at = at })

abbrev pub renewed : ℕ → Task → Task
renewed at t = record t { lease = until_lease at t.lease; updated_at = at }

unfoldable pub heartbeat : GoString → GoString → ℕ → TaskStore → TaskStore × Option StoreError
heartbeat id token at s = change id (check_lease token) (renewed at) s

-- A second guard after the first.
abbrev pub first_error : Option StoreError → Option StoreError → Option StoreError
first_error none e = e
first_error (some e) _ = some e

abbrev pub completed : GoString → ℕ → Task → Task
completed result at t = record t {
  state = succeeded;
  outcome = result;
  error = none;
  lease = none;
  updated_at = at;
  finished_at = some at;
}

unfoldable pub complete :
    GoString → GoString → GoString → ℕ → TaskStore → TaskStore × Option StoreError
complete id token result at s =
    change id (λ t. first_error (check_lease token t) (check_finish_order at t))
      (completed result at) s

abbrev pub abandoned : Option Failure → Bool → ℕ → Task → Task
abandoned cause true at t = record t {
  error = cause;
  lease = none;
  updated_at = at;
  state = queued;
  started_at = none;
}
abandoned cause false at t = record t {
  error = cause;
  lease = none;
  updated_at = at;
  state = failed;
  finished_at = some at;
}

unfoldable pub fail :
    GoString → GoString → Option Failure → Bool → ℕ → TaskStore → TaskStore × Option StoreError
fail id token cause requeue at s = change id (check_lease token) (abandoned cause requeue at) s

abbrev pub is_waiting : Task → Option StoreError
is_waiting t = if state_eq t.state queued then none else some conflict

abbrev pub withdrawn : ℕ → Task → Task
withdrawn at t = record t { state = cancelled; updated_at = at; finished_at = some at }

unfoldable pub cancel : GoString → ℕ → TaskStore → TaskStore × Option StoreError
cancel id at s = change id is_waiting (withdrawn at) s

-- What `QueuePosition` counts: another task of the partition that runs, or waits before this one.
unfoldable pub is_ahead : Task → Task → Bool
is_ahead t other =
    not (other.id == t.id)
    && (other.partition_key == t.partition_key
        && (state_eq other.state running || (state_eq other.state queued && older other t)))

unfoldable pub queue_position : GoString → TaskStore → Result StoreError ℕ
queue_position id s = elim (task_at id s) [
  | none ↦ err not_found
  | some t ↦
      if not (state_eq t.state queued)
      then ok 0
      else if is_empty t.partition_key
      then ok 0
      else ok (count (is_ahead t) s.tasks)
]
