-- ===== src/Store/Counts.antt =====
-- internal/store/memory/tasks.go: how writing to one task, storing one and releasing stale ones
-- change the number of tasks with a property.
use mathlib.Core.List.Memᴰ.{head, tail}
use mathlib.Core.List.{Memᴰ}
use mathlib.Core.Path.{subst}
use nit.Base.{
  ℕ, ◌+◌, ◌≤◌, ◌≡◌, refl, Bool, true, false, ◌&&◌, List, [], ◌∷◌, GoString, ◌==◌, is_empty, All,
  count, count-mem, arith,
}
use nit.Store.Task.{Task, running, state_eq}
use nit.Store.Memory.{has_id, update, put, release, requeued, busy_partitions, is_busy}

abbrev pub bit : Bool → ℕ
bit true = 1
bit false = 0

-- A task that runs in a partition.
abbrev pub runs_in : GoString → Task → Bool
runs_in key t = state_eq t.state running && t.partition_key == key

module _ (p : Task → Bool) where
  -- A write that gives no task the property gives it to no more tasks.
  pub count-update :
      (write : Task → Task) (id : GoString) (ts : List Task)
      → ((t : Task) → p (write t) ≡ true → p t ≡ true)
      → count p (update id write ts) ≤ count p ts
  unfolding count update
  count-update write id [] h = omega arith
  count-update write id (t ∷ ts) h =
      let ht = h t in let later = count-update write id ts h in ground arith

  pub count-release :
      (now : ℕ) (ts : List Task)
      → ((t : Task) → p (requeued now t) ≡ true → p t ≡ true)
      → count p (release now ts) ≤ count p ts
  unfolding count release
  count-release now [] h = omega arith
  count-release now (t ∷ ts) h = let ht = h t in let later = count-release now ts h in ground arith

  pub count-put : (t : Task) (ts : List Task) → count p (put t ts) ≤ bit (p t) + count p ts
  unfolding count put
  count-put t [] = ground arith
  count-put t (u ∷ us) = ground (arith, count-put t us)

update_absent :
    (write : Task → Task) (id : GoString) (ts : List Task)
    → count (has_id id) ts ≡ 0
    → update id write ts ≡ ts
unfolding count update
update_absent write id [] h = refl
update_absent write id (t ∷ ts) h = ground (arith, update_absent write id ts)

-- A write to the only task of an ID.
pub count-update_one :
    (p : Task → Bool) (write : Task → Task) (id : GoString) (c : Task) (ts : List Task)
    → count (has_id id) ts ≤ 1
    → Memᴰ c ts
    → has_id id c ≡ true
    → count p (update id write ts) ≤ bit (p (write c)) + count p ts
unfolding count update
count-update_one p write id c [] one m h = elim m [ ]
count-update_one p write id c (x ∷ xs) one (head e) h =
    let found = subst (λ y. has_id id y ≡ true) e h in
    rw e (ground (arith, update_absent write id xs))
count-update_one p write id c (x ∷ xs) one (tail m) h =
    ground (arith, count-update_one p write id c xs, count-mem (has_id id) m)

pub All-update_one :
    (P : Task → Type 0) (write : Task → Task) (id : GoString) (c : Task) (ts : List Task)
    → count (has_id id) ts ≤ 1
    → Memᴰ c ts
    → has_id id c ≡ true
    → P (write c)
    → All P ts
    → All P (update id write ts)
unfolding count update
All-update_one P write id c [] one m h hc all = elim m [ ]
All-update_one P write id c (x ∷ xs) one (head e) h hc all =
    let found = subst (λ y. has_id id y ≡ true) e h in
    let here = subst (λ y. P (write y)) e hc in ground (arith, update_absent write id xs)
All-update_one P write id c (x ∷ xs) one (tail m) h hc all =
    ground (arith, All-update_one P write id c xs, count-mem (has_id id) m)

pub All-put : (P : Task → Type 0) (t : Task) (ts : List Task) → P t → All P ts → All P (put t ts)
unfolding put
All-put P t [] ht all = (ht, tt)
All-put P t (u ∷ us) ht (hu, all) = ground (arith, All-put P t us)

pub All-release :
    (P : Task → Type 0) (now : ℕ) (ts : List Task)
    → ((t : Task) → P t → P (requeued now t))
    → All P ts
    → All P (release now ts)
unfolding release
All-release P now [] h all = tt
All-release P now (t ∷ ts) h (ht, all) =
    let later = h t ht in ground (arith, All-release P now ts h all)

pub count-put_one :
    (id : GoString) (t : Task) (ts : List Task)
    → count (has_id id) ts ≤ 1
    → count (has_id id) (put t ts) ≤ 1
unfolding count put
count-put_one id t [] h = ground arith
count-put_one id t (u ∷ us) h = ground (arith, count-put_one id t us, count-put (has_id id) t us)

-- Nothing runs in a partition that is not busy.
pub count-is_busy :
    (key : GoString) (ts : List Task)
    → is_empty key ≡ false
    → is_busy (busy_partitions ts) key ≡ false
    → count (runs_in key) ts ≡ 0
unfolding count busy_partitions
count-is_busy key [] some free = refl
count-is_busy key (t ∷ ts) some free = ground (arith, count-is_busy key ts)
