-- ===== src/Store/Listing.antt =====
-- internal/store/memory/tasks.go: what `List`, `ByID` and `ByRequestID` return.
use mathlib.Core.List.{List, [], ◌∷◌, Memᴰ}
use nit.Base.{
  keep-implies, ℕ, zero, suc, ◌≡◌, ◌≤◌, inl, inr, Bool, true, All, arith, Sorted, StrictWeak,
  sort_by-Sorted, All-sort_by, All-keep, All-keep_of_All, All-mem, All-zip, take, length, ltb, pos,
  negsuc, ℤ, keep, Bool-cases,
}
use nit.Store.Task.{Task, TaskFilter}
use nit.Store.Memory.{TaskStore, is_listed, list, up_to, older}
use nit.Store.Dispatch.{older-StrictWeak}

abbrev pub newer : Task → Task → Bool
newer t u = older u t

newer-StrictWeak : StrictWeak newer
newer-StrictWeak = record {
  asymmetric = λ t u h. older-StrictWeak.asymmetric u t h;
  negative = λ t u v h k. older-StrictWeak.negative v u t k h;
}

All-take : (P : Task → Type 0) (n : ℕ) (ts : List Task) → All P ts → All P (take n ts)
All-take P zero ts h = tt
All-take P (suc n) [] h = tt
All-take P (suc n) (t ∷ ts) (ht, h) = (ht, All-take P n ts h)

take-Sorted : (n : ℕ) (ts : List Task) → Sorted newer ts → Sorted newer (take n ts)
take-Sorted zero ts h = tt
take-Sorted (suc n) [] h = tt
take-Sorted (suc n) (t ∷ ts) (l, h) = (All-take _ n ts l, take-Sorted n ts h)

-- A limit keeps all, or a first part.
up_to-All :
    (P : List Task → Type 0) (limit : ℤ) (ts : List Task)
    → P ts
    → ((n : ℕ) → P (take n ts))
    → P (up_to limit ts)
up_to-All P (pos zero) ts all part = all
up_to-All P (pos (suc n)) ts all part = elim (Bool-cases (ltb (suc n) (length ts))) [
  | inl more ↦ rw more (part (suc n))
  | inr fits ↦ rw fits all
]
up_to-All P (negsuc n) ts all part = all

length-take_le : (n : ℕ) (ts : List Task) → length (take n ts) ≤ n
length-take_le zero ts = omega arith
length-take_le (suc n) [] = omega arith
length-take_le (suc n) (t ∷ ts) = omega (arith, length-take_le n ts)

up_to-length : (n : ℕ) (ts : List Task) → length (up_to (pos (suc n)) ts) ≤ suc n
up_to-length n ts = elim (Bool-cases (ltb (suc n) (length ts))) [
  | inl more ↦ rw more (length-take_le (suc n) ts)
  | inr fits ↦ rw fits (ground arith)
]

-- A stored task that the filter selects.
abbrev pub IsSelected : TaskFilter → TaskStore → Task → Type 0
IsSelected f s t = (is_listed f t ≡ true) × Memᴰ t s.tasks

-- What a listing is.
pub record IsListing (f : TaskFilter) (s : TaskStore) (ts : List Task) : Type 0 where
  pub newest_first : Sorted newer ts
  pub selected : All (IsSelected f s) ts
  pub bounded : (n : ℕ) → f.limit ≡ pos (suc n) → length ts ≤ suc n
  pub complete : f.limit ≡ pos 0 → All (λ t. is_listed f t ≡ true → Memᴰ t ts) s.tasks

-- A listing is sorted from the newest to the oldest task, holds stored tasks that the filter selects,
-- no more of them than a positive limit, and all of them where the limit is 0.
pub list-IsListing : (f : TaskFilter) (s : TaskStore) → IsListing f s (list f s)
unfolding list is_listed
list-IsListing f s =
    let sorted = sort_by-Sorted newer newer-StrictWeak (keep (is_listed f) s.tasks) in
    let chosen = (All-sort_by newer (IsSelected f s) (keep (is_listed f) s.tasks)).1 (
      All-zip (λ t. is_listed f t ≡ true) (λ t. Memᴰ t s.tasks) (IsSelected f s) (λ t a b. (a, b)) _
        (All-keep (is_listed f) s.tasks)
        (All-keep_of_All _ (is_listed f) s.tasks (All-mem _ s.tasks (λ t m. m)))) in
    record {
      newest_first = up_to-All (Sorted newer) f.limit _ sorted (λ n. take-Sorted n _ sorted);
      selected = up_to-All (All (IsSelected f s)) f.limit _ chosen (λ n. All-take _ n _ chosen);
      bounded = λ n e. rw e (up_to-length n _);
      complete = λ e. rw e (
          keep-implies (is_listed f) _ s.tasks
            ((All-sort_by newer _ (keep (is_listed f) s.tasks)).0 (All-mem _ _ (λ t m. m))));
    }
