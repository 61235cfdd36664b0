-- ===== src/Audit/Trail/Export.antt =====
-- cmd/nitctl/export.go: the pages of an export together are one query.
use mathlib.Core.List.{List, [], ◌∷◌, ◌++◌, append-nil}
use mathlib.Core.Path.{◌≡◌, refl, sym, ap, subst, ◌∙◌}
use nit.Base.{
  keep-keep, ℕ, zero, suc, ◌<◌, ◌≤◌, Bool, true, ◌&&◌, none, some, All, keep, keep-append, All-keep,
  All-keep_of_All, sort_by, arith, ltb, Bool-cases, inl, inr, ℤ, pos, negsuc, if◌then◌else◌, length,
  take, drop, take-append-drop, length-append, is_empty, is_empty_iff,
}
use nit.Store.Memory.{up_to}
use nit.Audit.Trail.{
  AuditRecord, Trail, new_trail, AuditQuery, is_after, is_asked, query, comes_first, last_id,
  page_query, export_loop,
}
use nit.Audit.Trail.Order.{
  Ascending, keep-Ascending, sort_by-Ascending, InOrder, TrailCall, run_trail, run_trail-InOrder,
}

-- A page is a part of the whole from its start, and empty only if the whole is.
up_to-prefix :
    (limit : ℤ) (xs : List AuditRecord)
    → (rest : List AuditRecord) × (up_to limit xs ++ rest ≡ xs)
      × (is_empty (up_to limit xs) ≡ is_empty xs)
up_to-prefix (pos zero) xs = ([], append-nil xs, refl)
up_to-prefix (negsuc n) xs = ([], append-nil xs, refl)
up_to-prefix (pos (suc n)) xs = elim (Bool-cases (ltb (suc n) (length xs))) [
  | inl e ↦ rw e (drop (suc n) xs, take-append-drop (suc n) xs, kept xs)
  | inr e ↦ rw e ([], append-nil xs, refl)
]
  where
    kept : (ys : List AuditRecord) → is_empty (take (suc n) ys) ≡ is_empty ys
    kept [] = refl
    kept (y ∷ ys) = refl

-- The ID of the last of some records.
last_number : AuditRecord → List AuditRecord → ℕ
last_number r [] = r.id
last_number r (x ∷ xs) = last_number x xs

last_id_number :
    (c : ℤ) (r : AuditRecord) (page : List AuditRecord)
    → last_id c (r ∷ page) ≡ pos (last_number r page)
unfolding last_id last_number
last_id_number c r [] = refl
last_id_number c r (x ∷ page) = last_id_number (pos r.id) x page

-- The last ID of a page is between the page and what follows it.
last_number_between :
    (r : AuditRecord) (page rest : List AuditRecord)
    → Ascending (r ∷ page ++ rest)
    → (r.id ≤ last_number r page)
      × All (λ x. x.id ≤ last_number r page) page
      × All (λ x. last_number r page < x.id) rest
unfolding last_number
last_number_between r [] rest (l, a) = (omega arith, tt, l)
last_number_between r (x ∷ page) rest ((lx, l), a) =
    let (first, within, beyond) = last_number_between x page rest a in
    (omega arith, (first, within), beyond)

none_after :
    (m : ℕ) (xs : List AuditRecord)
    → 0 < m
    → All (λ x. x.id ≤ m) xs
    → keep (is_after (pos m)) xs ≡ []
unfolding is_after
none_after m [] h l = refl
none_after zero (x ∷ xs) h l = absurd (omega arith)
none_after (suc m) (x ∷ xs) h (l, ls) = ground (arith, none_after (suc m) xs h ls)

all_after :
    (m : ℕ) (xs : List AuditRecord) → All (λ x. m < x.id) xs → keep (is_after (pos m)) xs ≡ xs
unfolding is_after
all_after m [] l = refl
all_after zero (x ∷ xs) (l, ls) = ground (arith, all_after zero xs ls)
all_after (suc m) (x ∷ xs) (l, ls) = ground (arith, all_after (suc m) xs ls)

-- A later cursor leaves less.
is_after_mono :
    (c : ℤ) (m : ℕ) (r x : AuditRecord)
    → is_after c r ≡ true
    → r.id ≤ m
    → 0 < m
    → is_after (pos m) x ≡ true
    → is_after c x ≡ true
unfolding is_after
is_after_mono (pos zero) m r x h le p a = refl
is_after_mono (negsuc n) m r x h le p a = refl
is_after_mono (pos (suc n)) zero r x h le p a = absurd (omega arith)
is_after_mono (pos (suc n)) (suc m) r x h le p a = ground arith

keep_and :
    (p s : AuditRecord → Bool) (xs : List AuditRecord)
    → keep (λ x. p x && s x) xs ≡ keep s (keep p xs)
keep_and p s [] = refl
keep_and p s (x ∷ xs) = ground (arith, keep_and p s xs)

-- What is left after a page is what followed it.
module _ (m : List AuditRecord) (a : Ascending m) (positive : All (λ x. 0 < x.id) m) where
  keep-page :
      (c : ℤ) (r : AuditRecord) (page rest : List AuditRecord)
      → keep (is_after c) m ≡ r ∷ page ++ rest
      → keep (is_after (last_id c (r ∷ page))) m ≡ rest
  keep-page c r page rest e =
      let l = last_number r page in
      let whole : Ascending (r ∷ page ++ rest) =
        subst Ascending e (keep-Ascending (is_after c) m a) in
      let large : 0 < r.id =
        (subst (All (λ x. 0 < x.id)) e
          (All-keep_of_All (λ x. 0 < x.id) (is_after c) m positive)).0 in
      let passed : is_after c r ≡ true =
        (subst (All (λ x. is_after c x ≡ true)) e (All-keep (is_after c) m)).0 in
      let (first, within, beyond) = last_number_between r page rest whole in
      let some_after : 0 < l = omega (arith, first, large) in
      let left = sym (
        keep-keep (is_after (pos l)) (is_after c) m
          (λ x. is_after_mono c l r x passed first some_after)) in
      let split = keep-append (is_after (pos l)) (r ∷ page) rest in
      let nothing = none_after l (r ∷ page) some_after (first, within) in
      rw (last_id_number c r page, left, e, split, nothing) (all_after l rest beyond)

module _ (q : AuditQuery) (batch : ℤ) (t : Trail) (o : InOrder t) where
  -- What the export has to write.
  abbrev asked : List AuditRecord
  asked = keep (is_asked q) t.audit

  asked-Ascending : Ascending asked
  asked-Ascending = keep-Ascending (is_asked q) t.audit o.ascending

  asked_positive : All (λ x. 0 < x.id) asked
  asked_positive = All-keep_of_All (λ x. 0 < x.id) (is_asked q) t.audit o.positive

  query_lem : (c : ℤ) → query (page_query q batch c) t ≡ up_to batch (keep (is_after c) asked)
  unfolding query is_asked
  query_lem c =
      let sorted =
        sort_by-Ascending (keep (is_after c) asked)
          (keep-Ascending (is_after c) asked asked-Ascending) in
      ap (λ xs. up_to batch (sort_by (comes_first true) xs))
        (keep_and (is_asked q) (is_after c) t.audit)
      ∙ ap (up_to batch) sorted

  loop_page :
      (fuel : ℕ) (c : ℤ) (page : List AuditRecord)
      → query (page_query q batch c) t ≡ page
      → export_loop (suc fuel) q batch c t ≡ (
          if is_empty page then some [] else elim (export_loop fuel q batch (last_id c page) t) [
            | none ↦ none
            | some later ↦ some (page ++ later)
          ])
  unfolding export_loop
  loop_page fuel c page e =
      ap
        (λ p. if is_empty p then some [] else elim (export_loop fuel q batch (last_id c p) t) [
          | none ↦ none
          | some later ↦ some (p ++ later)
        ])
        e

  -- One more page, where the later pages are known.
  export_page :
      (fuel : ℕ) (c : ℤ) (page rest : List AuditRecord)
      → ((d : ℤ)
          → length (keep (is_after d) asked) < fuel
          → export_loop fuel q batch d t ≡ some (keep (is_after d) asked))
      → length (keep (is_after c) asked) < suc fuel
      → query (page_query q batch c) t ≡ page
      → page ++ rest ≡ keep (is_after c) asked
      → is_empty page ≡ is_empty (keep (is_after c) asked)
      → export_loop (suc fuel) q batch c t ≡ some (keep (is_after c) asked)
  export_page fuel c [] rest later enough e whole same =
      let nothing = (is_empty_iff (keep (is_after c) asked)).0 (sym same) in
      rw nothing (loop_page fuel c [] e)
  export_page fuel c (r ∷ page) rest later enough e whole same =
      let left : keep (is_after (last_id c (r ∷ page))) asked ≡ rest =
        keep-page asked asked-Ascending asked_positive c r page rest (sym whole) in
      let sizes = length-append page rest in
      let total = ap length whole in
      let shorter = ap length left in
      let done = later (last_id c (r ∷ page)) (omega arith) in
      let first = loop_page fuel c (r ∷ page) e in rw (← whole) (ground arith)

  export_from :
      (fuel : ℕ) (c : ℤ)
      → length (keep (is_after c) asked) < fuel
      → export_loop fuel q batch c t ≡ some (keep (is_after c) asked)
  export_from zero c enough = absurd (omega arith)
  export_from (suc fuel) c enough =
      let (rest, whole, same) = up_to-prefix batch (keep (is_after c) asked) in
      export_page fuel c (up_to batch (keep (is_after c) asked)) rest (export_from fuel) enough
        (query_lem c) whole same

keep_le : (p : AuditRecord → Bool) (xs : List AuditRecord) → length (keep p xs) ≤ length xs
keep_le p [] = omega arith
keep_le p (x ∷ xs) = ground (arith, keep_le p xs)

-- Whatever was appended and pruned before, an export that starts at a cursor ends after at most as
-- many pages as there are records, plus one, and it writes exactly the records of the trail that the
-- query asks for and that come after the cursor, each as often as the trail has it and in its order,
-- for pages of any size.
pub export_loop_complete :
    (cs : List TrailCall) (q : AuditQuery) (batch cursor : ℤ)
    → let t = run_trail cs new_trail in
      export_loop (suc (length t.audit)) q batch cursor t
      ≡ some (keep (λ r. is_asked q r && is_after cursor r) t.audit)
export_loop_complete cs q batch cursor =
    let t = run_trail cs new_trail in
    let outer = keep_le (is_asked q) t.audit in
    let inner = keep_le (is_after cursor) (keep (is_asked q) t.audit) in
    rw (keep_and (is_asked q) (is_after cursor) t.audit) (
      export_from q batch t (run_trail-InOrder cs) (suc (length t.audit)) cursor
        (omega (arith, outer, inner)))
