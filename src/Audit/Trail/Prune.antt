-- ===== src/Audit/Trail/Prune.antt =====
-- internal/store/memory/memory.go, `PruneAudit`: what a purge leaves.
use mathlib.Core.List.{List, [], ◌∷◌}
use mathlib.Core.Path.{◌≡◌, refl, ap}
use nit.Base.{keep-keep, ℕ, ◌+◌, ◌<◌, ◌≤◌, true, not, keep, count, sort_by, arith, length}
use nit.Store.Memory.{up_to}
use nit.Audit.Trail.{
  AuditRecord, Trail, AuditQuery, is_asked, is_selected, query, comes_first, prune_audit,
  count_audit_before, is_before_cutoff,
}

-- A purge of what is older than a cutoff.
pub record IsPurge (before : ℕ) (t after : Trail) (removed : ℕ) : Type 0 where
  pub announced : removed ≡ count_audit_before before t
  pub gone : count_audit_before before after ≡ 0
  pub left : length after.audit + removed ≡ length t.audit
  pub unseen : (q : AuditQuery) → before ≤ q.since → 0 < q.since → query q after ≡ query q t

kept_count :
    (before : ℕ) (rs : List AuditRecord)
    → (count (is_before_cutoff before) (keep (λ r. not (is_before_cutoff before r)) rs) ≡ 0)
      × (length (keep (λ r. not (is_before_cutoff before r)) rs)
            + count (is_before_cutoff before) rs
          ≡ length rs)
unfolding count
kept_count before [] = (refl, omega arith)
kept_count before (r ∷ rs) = ground (arith, kept_count before rs)

-- A query from the cutoff on asks for nothing that the purge removes.
asked_kept :
    (before : ℕ) (q : AuditQuery) (r : AuditRecord)
    → before ≤ q.since
    → 0 < q.since
    → is_selected q r ≡ true
    → not (is_before_cutoff before r) ≡ true
unfolding is_asked
asked_kept before q r late since h = ground arith

-- A purge removes as many records as were counted before it, namely all that are older than its
-- cutoff and no others, and every query of a window that starts at the cutoff or later returns what
-- it returned before.
pub prune_audit-IsPurge :
    (before : ℕ) (t : Trail)
    → let (after, removed) = prune_audit before t in IsPurge before t after removed
unfolding prune_audit count_audit_before query
prune_audit-IsPurge before t = record {
  announced = refl;
  gone = (kept_count before t.audit).0;
  left = (kept_count before t.audit).1;
  unseen = λ q late since.
      ap (λ rs. up_to q.limit (sort_by (comes_first q.oldest) rs))
        (keep-keep (is_selected q) (λ r. not (is_before_cutoff before r)) t.audit
          (λ r. asked_kept before q r late since));
}
