-- ===== src/Audit/Trail/Order.antt =====
-- internal/store/memory/memory.go: the trail is in the order of its IDs.
use mathlib.Core.List.{List, [], ◌∷◌, ◌++◌}
use nit.Base.{
  ◌≡◌, refl, ℕ, ◌+◌, ◌<◌, ◌≤◌, Bool, true, All, All-append, All-keep_of_All, keep, sort_by,
  insert_by, arith,
}
use nit.Audit.Trail.{
  AuditRecord, Trail, new_trail, append_records, append_one, stored_record, prune_audit,
  comes_first,
}

-- The IDs rise.
abbrev pub Ascending : List AuditRecord → Type 0
Ascending [] = Unit
Ascending (r ∷ rs) = All (λ x. r.id < x.id) rs × Ascending rs

pub keep-Ascending :
    (p : AuditRecord → Bool) (rs : List AuditRecord) → Ascending rs → Ascending (keep p rs)
keep-Ascending p [] h = tt
keep-Ascending p (r ∷ rs) (l, h) =
    let rest = keep-Ascending p rs h in
    let least = All-keep_of_All (λ x. r.id < x.id) p rs l in ground arith

-- Oldest first is the order of the trail.
pub sort_by-Ascending : (rs : List AuditRecord) → Ascending rs → sort_by (comes_first true) rs ≡ rs
unfolding sort_by insert_by
sort_by-Ascending [] h = refl
sort_by-Ascending (r ∷ []) h = refl
sort_by-Ascending (r ∷ x ∷ rs) (l, h) =
    let rest = sort_by-Ascending (x ∷ rs) h in rw rest (ground arith)

-- The trail is in order, and its counter is not behind it.
pub record InOrder (t : Trail) : Type 0 where
  pub ascending : Ascending t.audit
  pub positive : All (λ r. 0 < r.id) t.audit
  pub counted : All (λ r. r.id ≤ t.audit_seq) t.audit

Ascending-append_last :
    (rs : List AuditRecord) (r : AuditRecord)
    → Ascending rs
    → All (λ x. x.id < r.id) rs
    → Ascending (rs ++ r ∷ [])
Ascending-append_last [] r h l = (tt, tt)
Ascending-append_last (x ∷ rs) r (least, h) (l, ls) =
    (All-append (λ y. x.id < y.id) rs (r ∷ []) least (l, tt), Ascending-append_last rs r h ls)

All-weaken :
    (n m : ℕ) (rs : List AuditRecord) → n ≤ m → All (λ r. r.id ≤ n) rs → All (λ r. r.id ≤ m) rs
All-weaken n m [] le h = tt
All-weaken n m (r ∷ rs) le (h, hs) = (omega arith, All-weaken n m rs le hs)

below_next : (n : ℕ) (rs : List AuditRecord) → All (λ r. r.id ≤ n) rs → All (λ r. r.id < n + 1) rs
below_next n [] h = tt
below_next n (r ∷ rs) (h, hs) = (omega (arith, h), below_next n rs hs)

pub append_one-InOrder :
    (clock : ℕ) (r : AuditRecord) (t : Trail) → InOrder t → InOrder (append_one clock r t)
append_one-InOrder clock r t o = record {
  ascending =
      Ascending-append_last t.audit (stored_record clock (t.audit_seq + 1) r) o.ascending
        (below_next t.audit_seq t.audit o.counted);
  positive = All-append (λ x. 0 < x.id) t.audit _ o.positive (omega arith, tt);
  counted =
      All-append (λ x. x.id ≤ t.audit_seq + 1) t.audit
        (stored_record clock (t.audit_seq + 1) r ∷ [])
        (All-weaken t.audit_seq (t.audit_seq + 1) t.audit (omega arith) o.counted)
        (omega arith, tt);
}

pub append_records-InOrder :
    (clock : ℕ) (rs : List AuditRecord) (t : Trail)
    → InOrder t
    → InOrder (append_records clock rs t)
unfolding append_records
append_records-InOrder clock [] t o = o
append_records-InOrder clock (r ∷ rs) t o =
    append_records-InOrder clock rs (append_one clock r t) (append_one-InOrder clock r t o)

pub prune_audit-InOrder : (before : ℕ) (t : Trail) → InOrder t → InOrder (prune_audit before t).0
unfolding prune_audit
prune_audit-InOrder before t o = record {
  ascending = keep-Ascending _ t.audit o.ascending;
  positive = All-keep_of_All _ _ t.audit o.positive;
  counted = All-keep_of_All _ _ t.audit o.counted;
}

pub new_trail-InOrder : InOrder new_trail
new_trail-InOrder = record { ascending = tt; positive = tt; counted = tt }

-- Calls that change the trail.
pub data TrailCall : Type 0 where
  appends : List AuditRecord → ℕ → TrailCall
  prunes : ℕ → TrailCall

unfoldable pub run_trail : List TrailCall → Trail → Trail
run_trail [] t = t
run_trail (appends rs clock ∷ cs) t = run_trail cs (append_records clock rs t)
run_trail (prunes before ∷ cs) t = run_trail cs (prune_audit before t).0

run_trail_from : (cs : List TrailCall) (t : Trail) → InOrder t → InOrder (run_trail cs t)
unfolding run_trail
run_trail_from [] t o = o
run_trail_from (appends rs clock ∷ cs) t o =
    run_trail_from cs (append_records clock rs t) (append_records-InOrder clock rs t o)
run_trail_from (prunes before ∷ cs) t o =
    run_trail_from cs (prune_audit before t).0 (prune_audit-InOrder before t o)

pub run_trail-InOrder : (cs : List TrailCall) → InOrder (run_trail cs new_trail)
run_trail-InOrder cs = run_trail_from cs new_trail new_trail-InOrder
