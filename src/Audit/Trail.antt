-- ===== src/Audit/Trail.antt =====
-- internal/store/memory/memory.go, the audit store; cmd/nitctl/export.go, the loop that exports it;
-- internal/auditlog/recorder.go, what is forwarded of a record.
--
-- The clock is an argument. An instant is its number of nanoseconds, 0 for Go's zero time.
pub mod Order
pub mod Export
pub mod Prune
use mathlib.Core.List.{List, [], ◌∷◌, ◌++◌, map}
use nit.Base.{
  ℕ, zero, suc, ◌+◌, Bool, true, false, not, ◌&&◌, ◌||◌, Option, none, some, GoString, is_empty,
  ltb, leb, nat_eq, keep, count, sort_by, if◌then◌else◌, ℤ, pos, negsuc, ◌==◌, lookup, str_discrete,
}
use nit.Store.Memory.{selects_text, up_to}
use nit.Audit.Record.{Record}

pub record AuditRecord : Type 0 where
  pub id : ℕ
  pub tenant_id : GoString
  pub occurred_at : ℕ
  pub actor_user_id : GoString
  pub actor_label : GoString
  pub action : GoString
  pub repository_id : GoString
  pub branch : GoString
  pub path : GoString
  pub effect : GoString
  pub reason : GoString
  pub rule_id : GoString
  pub guard : GoString
  pub policy_version : GoString
  pub request_id : GoString
  pub task_id : GoString
  pub detail : GoString

-- The fields of the store that its audit records use.
pub record Trail : Type 0 where
  pub audit_seq : ℕ
  pub audit : List AuditRecord

abbrev pub new_trail : Trail
new_trail = record { audit_seq = 0; audit = [] }

-- What `Append` stores for a record.
abbrev pub stored_record : ℕ → ℕ → AuditRecord → AuditRecord
stored_record clock id r = record r {
  id = id;
  occurred_at = if nat_eq r.occurred_at 0 then clock else r.occurred_at;
}

abbrev pub append_one : ℕ → AuditRecord → Trail → Trail
append_one clock r t = record {
  audit_seq = t.audit_seq + 1;
  audit = t.audit ++ stored_record clock (t.audit_seq + 1) r ∷ [];
}

unfoldable pub append_records : ℕ → List AuditRecord → Trail → Trail
append_records clock [] t = t
append_records clock (r ∷ rs) t = append_records clock rs (append_one clock r t)

pub record AuditQuery : Type 0 where
  pub tenant : GoString
  pub actor_user_id : GoString
  pub repository_id : GoString
  pub request_id : GoString
  pub since : ℕ
  pub until : ℕ
  pub after_id : ℤ
  pub oldest : Bool
  pub limit : ℤ

-- A bound that is the zero time does not bound.
abbrev pub in_window : ℕ → ℕ → ℕ → Bool
in_window since until at =
    (nat_eq since 0 || not (ltb at since)) && (nat_eq until 0 || not (ltb until at))

-- The record comes after the cursor, if the query has one.
unfoldable pub is_after : ℤ → AuditRecord → Bool
is_after (pos zero) r = true
is_after (pos (suc n)) r = ltb (suc n) r.id
is_after (negsuc n) r = true

-- The tests of the query, other than the cursor.
unfoldable pub is_asked : AuditQuery → AuditRecord → Bool
is_asked q r =
    selects_text q.tenant r.tenant_id
    && (selects_text q.actor_user_id r.actor_user_id
        && (selects_text q.repository_id r.repository_id
            && (selects_text q.request_id r.request_id && in_window q.since q.until r.occurred_at)))

abbrev pub is_selected : AuditQuery → AuditRecord → Bool
is_selected q r = is_asked q r && is_after q.after_id r

-- The order of the records that a query returns.
abbrev pub comes_first : Bool → AuditRecord → AuditRecord → Bool
comes_first true a b = ltb a.id b.id
comes_first false a b = ltb b.id a.id

unfoldable pub query : AuditQuery → Trail → List AuditRecord
query q t = up_to q.limit (sort_by (comes_first q.oldest) (keep (is_selected q) t.audit))

abbrev pub is_before_cutoff : ℕ → AuditRecord → Bool
is_before_cutoff before r = ltb r.occurred_at before

unfoldable pub count_audit_before : ℕ → Trail → ℕ
count_audit_before before t = count (is_before_cutoff before) t.audit

-- `PruneAudit`: the trail after it, and how many records it removed.
unfoldable pub prune_audit : ℕ → Trail → Trail × ℕ
prune_audit before t = (
  record t { audit = keep (λ r. not (is_before_cutoff before r)) t.audit },
  count (is_before_cutoff before) t.audit,
)

-- The cursor after a page.
unfoldable pub last_id : ℤ → List AuditRecord → ℤ
last_id cursor [] = cursor
last_id cursor (r ∷ rs) = last_id (pos r.id) rs

-- The query for the page after a cursor.
abbrev pub page_query : AuditQuery → ℤ → ℤ → AuditQuery
page_query q batch cursor = record q { after_id = cursor; oldest = true; limit = batch }

-- The loop of `auditExport`: the records that it writes, page by page; `none` without fuel.
unfoldable pub export_loop : ℕ → AuditQuery → ℤ → ℤ → Trail → Option (List AuditRecord)
export_loop zero q batch cursor t = none
export_loop (suc fuel) q batch cursor t =
    let page = query (page_query q batch cursor) t in
    let rest = export_loop fuel q batch (last_id cursor page) t in
    if is_empty page then some [] else elim rest [ none ↦ none | some later ↦ some (page ++ later) ]

-- `convert`: a record as a sink receives it, with the name of its repository.
abbrev pub convert : GoString → AuditRecord → Record
convert repository r = record {
  occurred_at = r.occurred_at;
  actor = r.actor_label;
  action = r.action;
  repository = repository;
  branch = r.branch;
  path = r.path;
  effect = r.effect;
  reason = r.reason;
  rule_id = r.rule_id;
  guard = r.guard;
  policy_version = r.policy_version;
  request_id = r.request_id;
  task_id = r.task_id;
}

-- A Go map read without `ok`: the empty name where there is none.
abbrev pub name_of : List (GoString × GoString) → GoString → GoString
name_of names id = elim (lookup str_discrete id names) [ none ↦ [] | some name ↦ name ]

-- `exportRecord`.
unfoldable pub export_record : List (GoString × GoString) → AuditRecord → Record
export_record names r = convert (name_of names r.repository_id) r

-- `Recorder.Record`: the store first, then the sink, if there is one; what the sink got is a list.
-- Neither can fail the operation that is recorded.
unfoldable pub record_all :
    Bool → ℕ → GoString → List AuditRecord → Trail × List Record → Trail × List Record
record_all has_sink clock repository [] (t, sent) = (t, sent)
record_all has_sink clock repository (r ∷ rs) (t, sent) = (
  append_records clock (r ∷ rs) t,
  (if has_sink then sent ++ map (convert repository) (r ∷ rs) else sent),
)
