-- ===== src/Store/Task.antt =====
-- pkg/store/models.go, pkg/store/store.go and pkg/protocol/task.go: tasks, their leases, and the
-- options and errors of the task store.
--
-- An instant is its number of nanoseconds, 0 for Go's zero time; the empty `TaskState` is `unset`.
use nit.Base.{ℕ, Bool, true, false, not, Option, none, some, List, GoString, ltb, ℤ}

pub data TaskKind : Type 0 where
  task_push : TaskKind
  task_pull : TaskKind

abbrev pub kind_eq : TaskKind → TaskKind → Bool
kind_eq task_push task_push = true
kind_eq task_pull task_pull = true
kind_eq _ _ = false

pub data TaskState : Type 0 where
  unset : TaskState
  queued : TaskState
  running : TaskState
  succeeded : TaskState
  failed : TaskState
  cancelled : TaskState

abbrev pub state_eq : TaskState → TaskState → Bool
state_eq unset unset = true
state_eq queued queued = true
state_eq running running = true
state_eq succeeded succeeded = true
state_eq failed failed = true
state_eq cancelled cancelled = true
state_eq _ _ = false

unfoldable pub is_terminal : TaskState → Bool
is_terminal succeeded = true
is_terminal failed = true
is_terminal cancelled = true
is_terminal _ = false

-- An error of pkg/protocol, without its denials and its delay, which the store never reads.
pub record Failure : Type 0 where
  pub code : GoString
  pub message : GoString

pub record Lease : Type 0 where
  pub holder : GoString
  pub token : GoString
  pub expires_at : ℕ

-- `(*Lease).Expired`, of a pointer that may be nil.
abbrev pub expired : Option Lease → ℕ → Bool
expired none now = false
expired (some l) now = not (ltb now l.expires_at)

pub record Task : Type 0 where
  pub id : GoString
  pub tenant_id : GoString
  pub request_id : GoString
  pub kind : TaskKind
  pub state : TaskState
  pub user_id : GoString
  pub workspace_id : GoString
  pub repository_id : GoString
  pub branch : GoString
  pub partition_key : GoString
  pub payload : GoString
  pub outcome : GoString
  pub error : Option Failure
  pub attempts : ℕ
  pub lease : Option Lease
  pub created_at : ℕ
  pub updated_at : ℕ
  pub started_at : Option ℕ
  pub finished_at : Option ℕ

pub data StoreError : Type 0 where
  not_found : StoreError
  duplicate_request : StoreError
  no_task : StoreError
  lease_lost : StoreError
  conflict : StoreError

-- The options of a claim.
pub record ClaimOptions : Type 0 where
  pub holder : GoString
  pub kinds : List TaskKind
  pub lease_for : ℤ
  pub now : ℕ

pub record TaskFilter : Type 0 where
  pub tenant : GoString
  pub states : List TaskState
  pub kinds : List TaskKind
  pub user_id : GoString
  pub repository_id : GoString
  pub branch : GoString
  pub limit : ℤ
