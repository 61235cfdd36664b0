-- ===== src/Store/Queue.antt =====
-- internal/store/memory/tasks.go: `Create` on a repeated request, `QueuePosition` and
-- `ReleaseExpired`.
use mathlib.Core.List.{Memᴰ}
use mathlib.Core.Path.{subst}
use nit.Base.{
  ℕ, ◌+◌, ◌≡◌, refl, inl, inr, Bool, true, false, none, some, List, [], ◌∷◌, GoString, arith,
  Option-cases, irreflexive, find, find-mem, count, All, All_of_mem, All-mem, is_empty, ok,
  ok-injective, str_discrete,
}
use nit.Store.Task.{Task, queued, running, state_eq, duplicate_request}
use nit.Store.Memory.{
  TaskStore, task_at, put, create, duplicate_of, with_id, submitted, is_request, queue_position,
  is_ahead, older, is_candidate, busy_partitions, is_busy, release_expired, release, is_stale,
}
use nit.Store.Counts.{runs_in}
use nit.Store.Invariant.{WellFormed, with_id-SameFields}
use nit.Store.Dispatch.{IsDispatchable, mem-task_at, older-StrictWeak}

find-put-none :
    (p : Task → Bool) (t : Task) (ts : List Task) → p t ≡ true → find p (put t ts) ≡ none → ⊥
unfolding find put
find-put-none p t [] h e = absurd (ground arith)
find-put-none p t (u ∷ us) h e = let later = find-put-none p t us h in absurd (ground arith)

-- After a submission, its request is answered.
module _ (clock : ℕ) (t : Task) (s : TaskStore) (named : is_empty t.request_id ≡ false) where
  create-answers : find (is_request t.tenant_id t.request_id) (create clock t s).0.tasks ≡ none → ⊥
  unfolding create
  create-answers e = elim (Option-cases (duplicate_of t s)) [
    | inl d ↦
        find-put-none (is_request t.tenant_id t.request_id) (submitted clock (with_id s t).1)
          s.tasks
          (let same = with_id-SameFields s t in
            rw (same.tenant_same, same.request_same) (ground arith))
          (rw (d, create) at e)
    | inr (old, d) ↦ let none_here = rw (d, create) at e in let some_here = rw named at d in cc
  ]

create-hit :
    (clock : ℕ) (u : Task) (s : TaskStore) (x : Task)
    → duplicate_of u s ≡ some x
    → create clock u s ≡ (s, (x, some duplicate_request))
unfolding create
create-hit clock u s x e = rw (e, create)

-- A task submitted again, with the same tenant and the same request ID that is not empty, changes
-- nothing and is answered with a stored task of that request and the error that it is a duplicate.
pub create-duplicate :
    (clock later : ℕ) (t u : Task) (s : TaskStore)
    → is_empty t.request_id ≡ false
    → u.tenant_id ≡ t.tenant_id
    → u.request_id ≡ t.request_id
    → (existing : Task) × (is_request t.tenant_id t.request_id existing ≡ true)
      × (create later u (create clock t s).0
          ≡ ((create clock t s).0, (existing, some duplicate_request)))
create-duplicate clock later t u s named tenant request =
    elim (Option-cases (find (is_request t.tenant_id t.request_id) (create clock t s).0.tasks)) [
      | inl e ↦ absurd (create-answers clock t s named e)
      | inr (x, e) ↦ (
        x,
        (find-mem _ _ e).1,
        create-hit later u (create clock t s).0 x (rw (tenant, request, named) e),
      )
    ]

abbrev pub is_running : Task → Bool
is_running t = state_eq t.state running

release-count :
    (now : ℕ) (ts : List Task)
    → (count (is_stale now) (release now ts) ≡ 0)
      × (count is_running (release now ts) + count (is_stale now) ts ≡ count is_running ts)
unfolding count release
release-count now [] = (refl, omega arith)
release-count now (t ∷ ts) = ground (arith, release-count now ts)

-- After a release of the leases that have run out at an instant none of them is left, and the tasks
-- that ran before are those that still run and those that were released, of which the operation
-- reports the number.
pub release_expired-count :
    (now : ℕ) (s : TaskStore)
    → let (after, n) = release_expired now s in
      (count (is_stale now) after.tasks ≡ 0)
      × (count is_running after.tasks + n ≡ count is_running s.tasks)
unfolding release_expired
release_expired-count now s = release-count now s.tasks

count-All : (p : Task → Bool) (ts : List Task) → count p ts ≡ 0 → All (λ t. p t ≡ false) ts
unfolding count
count-All p [] e = tt
count-All p (t ∷ ts) e = ground (arith, count-All p ts)

idle_partition :
    (key : GoString) (ts : List Task)
    → All (λ u. runs_in key u ≡ false) ts
    → is_busy (busy_partitions ts) key ≡ false
unfolding busy_partitions
idle_partition key [] h = refl
idle_partition key (t ∷ ts) (ht, h) = ground (arith, idle_partition key ts h)

-- A claim of any kind may take the task, and no older task of its partition.
pub record IsNext (s : TaskStore) (t : Task) : Type 0 where
  pub dispatchable : IsDispatchable [] s.tasks t
  pub oldest :
      All
        (λ u. IsDispatchable [] s.tasks u → u.partition_key ≡ t.partition_key → older u t ≡ false)
        s.tasks

-- A queued task of a partition that has nobody before it.
module _ (s : TaskStore) (t : Task) (w : WellFormed s) (found : task_at t.id s ≡ some t)
    (waits : state_eq t.state queued ≡ true) (keyed : is_empty t.partition_key ≡ false)
    (first : queue_position t.id s ≡ ok 0) where
  nobody_ahead : All (λ u. is_ahead t u ≡ false) s.tasks
  unfolding queue_position
  nobody_ahead =
      count-All (is_ahead t) s.tasks
        (ok-injective (rw (found, queue_position, waits, keyed) at first))

  same_task : (u : Task) → Memᴰ u s.tasks → u.id ≡ t.id → u ≡ t
  same_task u m e =
      let at_id = subst (λ i. task_at i s ≡ some u) e (mem-task_at u s.tasks (w.one_id u.id) m) in
      cc

  not_running : (u : Task) → Memᴰ u s.tasks → runs_in t.partition_key u ≡ false
  unfolding is_ahead
  not_running u m =
      let free = All_of_mem (λ u. is_ahead t u ≡ false) m nobody_ahead in
      elim (str_discrete u.id t.id) [
        | yes e ↦ let it = same_task u m e in rw it (ground arith)
        | no ne ↦ ground arith
      ]

  not_older :
      (u : Task)
      → Memᴰ u s.tasks
      → IsDispatchable [] s.tasks u
      → u.partition_key ≡ t.partition_key
      → older u t ≡ false
  unfolding is_ahead is_candidate
  not_older u m d k =
      let free = All_of_mem (λ u. is_ahead t u ≡ false) m nobody_ahead in
      elim (str_discrete u.id t.id) [
        | yes e ↦ let it = same_task u m e in rw it (irreflexive older older-StrictWeak t)
        | no ne ↦ ground arith
      ]

  nobody_runs : All (λ u. runs_in t.partition_key u ≡ false) s.tasks
  nobody_runs = All-mem _ s.tasks not_running

  -- In a well-formed store, a stored task that is queued in a partition and whose queue position is
  -- 0 is next: a claim of any kind may take it, and nothing older than it from the same partition.
  pub queue_position-IsNext : IsNext s t
  unfolding is_candidate
  queue_position-IsNext = record {
    dispatchable = ground (arith, idle_partition t.partition_key s.tasks nobody_runs);
    oldest = All-mem _ s.tasks not_older;
  }
