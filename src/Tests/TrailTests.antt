-- ===== src/Tests/TrailTests.antt =====
-- internal/store/memory, the audit store, and cmd/nitctl/export.go.
use mathlib.Core.List.{List, [], ◌∷◌}
use nit.Base.{
  ℕ, suc, ◌&&◌, ◌≡◌, refl, true, some, text, GoString, length, keep, pos, sort_by, insert_by,
  str_discrete,
}
use nit.Audit.Trail.{
  AuditRecord, new_trail, append_records, AuditQuery, is_asked, is_after, query, export_loop,
  prune_audit, last_id,
}
use nit.Audit.Trail.Order.{TrailCall, appends, prunes, run_trail}
use nit.Audit.Trail.Export.{export_loop_complete}
use nit.Audit.Trail.Prune.{IsPurge, prune_audit-IsPurge}

abbrev pushed_at : ℕ → GoString → AuditRecord
pushed_at at task = record {
  id = 0;
  tenant_id = text "acme";
  occurred_at = at;
  actor_user_id = text "u1";
  actor_label = text "alice";
  action = text "push.accepted";
  repository_id = text "repo-1";
  branch = text "main";
  path = [];
  effect = text "allow";
  reason = text "granted";
  rule_id = text "writers";
  guard = [];
  policy_version = text "v1";
  request_id = text "r1";
  task_id = task;
  detail = [];
}

abbrev calls : List TrailCall
calls =
    appends (pushed_at 5 (text "a") ∷ pushed_at 0 (text "b") ∷ pushed_at 9 (text "c") ∷ []) 7
    ∷ prunes 6
    ∷ appends (pushed_at 8 (text "d") ∷ []) 9
    ∷ []

abbrev everything : AuditQuery
everything = record {
  tenant = text "acme";
  actor_user_id = [];
  repository_id = [];
  request_id = [];
  since = 1;
  until = 8;
  after_id = pos 0;
  oldest = true;
  limit = pos 0;
}

-- A record without an instant got the clock's, the oldest one was purged, and the third is outside.
exports_pages :
    export_loop 4 everything (pos 1) (pos 0) (run_trail calls new_trail)
    ≡ some (
        record (pushed_at 7 (text "b")) { id = 2 }
        ∷ record (pushed_at 8 (text "d")) { id = 4 }
        ∷ [])
unfolding export_loop run_trail append_records prune_audit query last_id is_asked is_after sort_by
    insert_by str_discrete
exports_pages = refl

export_loop_complete_example :
    let t = run_trail calls new_trail in
    export_loop (suc (length t.audit)) everything (pos 1) (pos 2) t
    ≡ some (keep (λ r. is_asked everything r && is_after (pos 2) r) t.audit)
export_loop_complete_example = export_loop_complete calls everything (pos 1) (pos 2)

prune_audit-IsPurge_example :
    let t = run_trail calls new_trail in
    let (after, removed) = prune_audit 8 t in IsPurge 8 t after removed
prune_audit-IsPurge_example = prune_audit-IsPurge 8 (run_trail calls new_trail)
