-- ===== src/Store/Memory/Records.antt =====
-- internal/store/memory/memory.go and tasks.go: the stored tasks, how one is submitted, found and
-- listed.
--
-- The map of tasks is the list of its values, each stored under its own ID, in the order in which
-- a `range` loop meets them. An operation runs under the store's mutex, so it is one step; tasks
-- are values here, so `cloneTask` is the identity. The clock and the random token are arguments.
use nit.Base.{
  digits, ℕ, zero, suc, ◌+◌, Bool, ◌&&◌, ◌||◌, Option, none, some, List, [], ◌∷◌, ◌++◌, GoString,
  text, ◌==◌, is_empty, any, keep, length, take, ltb, nat_eq, str_ltb, if◌then◌else◌, Result, ok,
  err, ℤ, pos, negsuc, find, sort_by,
}
use nit.Store.Task.{
  TaskKind, kind_eq, TaskState, unset, queued, state_eq, Task, StoreError, not_found,
  duplicate_request, TaskFilter,
}

-- The fields of the store that its tasks use.
pub record TaskStore : Type 0 where
  pub seq : ℕ
  pub tasks : List Task

abbrev pub new : TaskStore
new = record { seq = 0; tasks = [] }

abbrev pub has_id : GoString → Task → Bool
has_id id t = t.id == id

-- `t, ok := s.tasks[id]`.
abbrev pub task_at : GoString → TaskStore → Option Task
task_at id s = find (has_id id) s.tasks

-- Writing through the pointer that the map holds under an ID.
unfoldable pub update : GoString → (Task → Task) → List Task → List Task
update id write [] = []
update id write (t ∷ ts) =
    let rest = update id write ts in if t.id == id then write t ∷ rest else t ∷ rest

-- `s.tasks[t.ID] = t`.
unfoldable pub put : Task → List Task → List Task
put t [] = t ∷ []
put t (u ∷ us) = let rest = put t us in if u.id == t.id then t ∷ us else u ∷ rest

-- `fmt.Sprintf("%s-%d", prefix, seq)`: a number has at most as many digits as its value, plus one.
unfoldable pub next_id : GoString → ℕ → GoString
next_id prefix n = prefix ++ text "-" ++ digits (suc n) n

abbrev pub is_request : GoString → GoString → Task → Bool
is_request tenant request t = t.tenant_id == tenant && t.request_id == request

-- The first task that answers a request, if the request has an ID.
abbrev pub duplicate_of : Task → TaskStore → Option Task
duplicate_of t s =
    if is_empty t.request_id then none else find (is_request t.tenant_id t.request_id) s.tasks

-- `if created.ID == "" { created.ID = s.nextID("task") }`, and the counter after it.
abbrev pub with_id : TaskStore → Task → ℕ × Task
with_id s t =
    if is_empty t.id
    then (s.seq + 1, record t { id = next_id (text "task") (s.seq + 1) })
    else (s.seq, t)

abbrev pub default_state : TaskState → TaskState
default_state unset = queued
default_state state = state

-- The record that `Create` stores.
abbrev pub submitted : ℕ → Task → Task
submitted clock t =
    let created = if nat_eq t.created_at 0 then clock else t.created_at in
    record t { state = default_state t.state; created_at = created; updated_at = created }

unfoldable pub create : ℕ → Task → TaskStore → TaskStore × (Task × Option StoreError)
create clock t s = elim (duplicate_of t s) [
  | some existing ↦ (s, (existing, some duplicate_request))
  | none ↦
      let (seq, named) = with_id s t in
      let created = submitted clock named in
      (record { seq = seq; tasks = put created s.tasks }, (created, none))
]

abbrev pub or_not_found : Option Task → Result StoreError Task
or_not_found none = err not_found
or_not_found (some t) = ok t

unfoldable pub by_id : GoString → TaskStore → Result StoreError Task
by_id id s = or_not_found (task_at id s)

unfoldable pub by_request_id : GoString → GoString → TaskStore → Result StoreError Task
by_request_id tenant request s = or_not_found (find (is_request tenant request) s.tasks)

abbrev pub contains_state : List TaskState → TaskState → Bool
contains_state states state = any (λ x. state_eq x state) states

abbrev pub contains_kind : List TaskKind → TaskKind → Bool
contains_kind kinds kind = any (λ x. kind_eq x kind) kinds

-- A field of a filter that is empty selects everything.
abbrev pub selects_text : GoString → GoString → Bool
selects_text wanted actual = is_empty wanted || actual == wanted

unfoldable pub is_listed : TaskFilter → Task → Bool
is_listed f t =
    selects_text f.tenant t.tenant_id
    && (selects_text f.user_id t.user_id
        && (selects_text f.repository_id t.repository_id
            && (selects_text f.branch t.branch
                && ((is_empty f.states || contains_state f.states t.state)
                    && (is_empty f.kinds || contains_kind f.kinds t.kind)))))

-- First created, first in the queue; the ID breaks a tie.
unfoldable pub older : Task → Task → Bool
older t u =
    if nat_eq t.created_at u.created_at then str_ltb t.id u.id else ltb t.created_at u.created_at

abbrev pub up_to : {A : Type 0} → ℤ → List A → List A
up_to (pos zero) xs = xs
up_to (pos (suc n)) xs = if ltb (suc n) (length xs) then take (suc n) xs else xs
up_to (negsuc n) xs = xs

-- `List`: newest first.
unfoldable pub list : TaskFilter → TaskStore → List Task
list f s = up_to f.limit (sort_by (λ t u. older u t) (keep (is_listed f) s.tasks))
