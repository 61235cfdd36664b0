-- ===== src/Store/Invariant.antt =====
-- internal/store/memory/tasks.go: what holds of the store after any sequence of operations.
use mathlib.Core.List.{Memᴰ}
use mathlib.Core.Path.{subst}
use nit.Base.{
  is_some, ℕ, ◌≤◌, ◌≡◌, refl, inl, inr, Bool, true, false, ◌||◌, Option, none, GoString, is_empty,
  All, count, arith, Option-cases, All_of_mem, ◌∙◌, find-mem, find-none, count_zero,
}
use nit.Store.Task.{Task, running, queued, unset, state_eq, StoreError, Failure}
use nit.Store.Memory.{
  TaskStore, new, has_id, update, put, release_expired, is_request, create, duplicate_of, submitted,
  with_id, leased, change, task_at, heartbeat, complete, fail, cancel, check_lease, renewed,
  completed, abandoned, is_waiting, withdrawn,
}
use nit.Store.Counts.{
  runs_in, count-update, count-release, count-put, count-put_one, All-update_one, All-put,
  All-release,
}

-- A task has a lease exactly while it runs.
abbrev pub IsLeased : Task → Type 0
IsLeased t = state_eq t.state running ≡ is_some t.lease

pub record WellFormed (s : TaskStore) : Type 0 where
  -- A partition runs one task at a time.
  pub serial : (key : GoString) → is_empty key ≡ false → count (runs_in key) s.tasks ≤ 1
  -- An ID names one task.
  pub one_id : (id : GoString) → count (has_id id) s.tasks ≤ 1
  -- A request became one task.
  pub one_request :
      (tenant request : GoString)
      → is_empty request ≡ false
      → count (is_request tenant request) s.tasks ≤ 1
  pub leased_iff_running : All IsLeased s.tasks

pub new-WellFormed : WellFormed new
unfolding count
new-WellFormed = record {
  serial = λ key h. omega arith;
  one_id = λ id. omega arith;
  one_request = λ tenant request h. omega arith;
  leased_iff_running = tt;
}

-- A task that a caller may submit: it is not running yet.
pub record IsSubmission (t : Task) : Type 0 where
  pub waiting : (state_eq t.state unset || state_eq t.state queued) ≡ true
  pub unleased : t.lease ≡ none

put-WellFormed :
    (seq : ℕ) (t : Task) (s : TaskStore)
    → WellFormed s
    → state_eq t.state running ≡ false
    → t.lease ≡ none
    → (is_empty t.request_id ≡ false → count (is_request t.tenant_id t.request_id) s.tasks ≡ 0)
    → WellFormed (record { seq = seq; tasks = put t s.tasks })
put-WellFormed seq t s w idle unleased fresh = record {
  serial = λ key h. ground (arith, w.serial key h, count-put (runs_in key) t s.tasks);
  one_id = λ id. count-put_one id t s.tasks (w.one_id id);
  one_request = λ tenant request h. ground (
    arith,
    fresh,
    w.one_request tenant request h,
    count-put (is_request tenant request) t s.tasks,
  );
  leased_iff_running = All-put IsLeased t s.tasks (rw (idle, unleased)) w.leased_iff_running;
}

pub release_expired-WellFormed :
    (now : ℕ) (s : TaskStore) → WellFormed s → WellFormed (release_expired now s).0
unfolding release_expired
release_expired-WellFormed now s w = record {
  serial = λ key h.
      ground (arith, w.serial key h, count-release (runs_in key) now s.tasks (λ t e. ground arith));
  one_id = λ id. ground (arith, w.one_id id, count-release (has_id id) now s.tasks (λ t e. e));
  one_request = λ tenant request h. ground (
    arith,
    w.one_request tenant request h,
    count-release (is_request tenant request) now s.tasks (λ t e. e),
  );
  leased_iff_running = All-release IsLeased now s.tasks (λ t h. refl) w.leased_iff_running;
}

-- Writing to one task of a store.
module _ (s : TaskStore) (w : WellFormed s) (c : Task) (m : Memᴰ c s.tasks) (write : Task → Task)
    (same_id : (t : Task) → (write t).id ≡ t.id)
    (same_tenant : (t : Task) → (write t).tenant_id ≡ t.tenant_id)
    (same_request : (t : Task) → (write t).request_id ≡ t.request_id) where
  pub update-WellFormed :
      ((key : GoString)
        → is_empty key ≡ false
        → count (runs_in key) (update c.id write s.tasks) ≤ 1)
      → IsLeased (write c)
      → WellFormed (record s { tasks = update c.id write s.tasks })
  update-WellFormed serial leased = record {
    serial = serial;
    one_id = λ id. ground (
      arith,
      w.one_id id,
      count-update (has_id id) write c.id s.tasks (λ t e. rw (same_id t) at e),
    );
    one_request = λ tenant request h. ground (
      arith,
      w.one_request tenant request h,
      count-update (is_request tenant request) write c.id s.tasks
          (λ t e. rw (same_tenant t, same_request t) at e),
    );
    leased_iff_running =
        All-update_one IsLeased write c.id c s.tasks (w.one_id c.id) m (ground arith) leased
          w.leased_iff_running;
  }

pub record SameFields (t u : Task) : Type 0 where
  pub state_same : u.state ≡ t.state
  pub lease_same : u.lease ≡ t.lease
  pub tenant_same : u.tenant_id ≡ t.tenant_id
  pub request_same : u.request_id ≡ t.request_id

pub with_id-SameFields : (s : TaskStore) (t : Task) → SameFields t (with_id s t).1
with_id-SameFields s t = record {
  state_same = ground arith;
  lease_same = ground arith;
  tenant_same = ground arith;
  request_same = ground arith;
}

-- No stored task answers the request of a task without a duplicate.
duplicate_of-none :
    (t : Task) (s : TaskStore)
    → duplicate_of t s ≡ none
    → is_empty t.request_id ≡ false
    → count (is_request t.tenant_id t.request_id) s.tasks ≡ 0
duplicate_of-none t s e h =
    count_zero (is_request t.tenant_id t.request_id) s.tasks
      (find-none (is_request t.tenant_id t.request_id) s.tasks (rw h at e))

pub create-WellFormed :
    (clock : ℕ) (t : Task) (s : TaskStore)
    → IsSubmission t
    → WellFormed s
    → WellFormed (create clock t s).0
unfolding create
create-WellFormed clock t s sub w = elim (Option-cases (duplicate_of t s)) [
  | inr (old, e) ↦ rw (e, create) w
  | inl e ↦
      let same = with_id-SameFields s t in
      rw (e, create)
        (put-WellFormed (with_id s t).0 (submitted clock (with_id s t).1) s w
          (ground (arith, sub.waiting, same.state_same)) (same.lease_same ∙ sub.unleased)
          (rw (same.request_same, same.tenant_same) (duplicate_of-none t s e)))
]

-- The four operations on one task that present an ID.
module _ (id : GoString) (guard : Task → Option StoreError) (write : Task → Task)
    (same_id : (t : Task) → (write t).id ≡ t.id)
    (same_tenant : (t : Task) → (write t).tenant_id ≡ t.tenant_id)
    (same_request : (t : Task) → (write t).request_id ≡ t.request_id)
    (same_key : (t : Task) → (write t).partition_key ≡ t.partition_key)
    (starts_none : (t : Task)
      → state_eq (write t).state running ≡ true
      → state_eq t.state running ≡ true)
    (keeps_lease : (t : Task) → guard t ≡ none → IsLeased t → IsLeased (write t)) (s : TaskStore)
    (w : WellFormed s) where
  runs_before : (key : GoString) (t : Task) → runs_in key (write t) ≡ true → runs_in key t ≡ true
  runs_before key t h = ground (arith, same_key t, starts_none t)

  change-WellFormed : WellFormed (change id guard write s).0
  unfolding change
  change-WellFormed = elim (Option-cases (task_at id s)) [
    | inl e ↦ rw (e, change) w
    | inr (t, e) ↦ elim (Option-cases (guard t)) [
      | inr (x, g) ↦ rw (e, change, g) w
      | inl g ↦
          let (m, found) = find-mem (has_id id) s.tasks e in
          let named : t.id ≡ id = ground (arith, found) in
          rw (e, change, g)
            (subst (λ i. WellFormed (record s { tasks = update i write s.tasks })) named
              (update-WellFormed s w t m write same_id same_tenant same_request
                (λ key h. ground (
                  arith,
                  w.serial key h,
                  count-update (runs_in key) write t.id s.tasks (runs_before key),
                ))
                (keeps_lease t g (All_of_mem IsLeased m w.leased_iff_running))))
    ]
  ]

module _ (id token : GoString) (at : ℕ) (s : TaskStore) (w : WellFormed s) where
  pub heartbeat-WellFormed : WellFormed (heartbeat id token at s).0
  unfolding heartbeat
  heartbeat-WellFormed =
      change-WellFormed id (check_lease token) (renewed at) (λ t. refl) (λ t. refl) (λ t. refl)
        (λ t. refl) (λ t h. h) (λ t g h. ground arith) s w

  pub complete-WellFormed : (result : GoString) → WellFormed (complete id token result at s).0
  unfolding complete
  complete-WellFormed result =
      change-WellFormed id _ (completed result at) (λ t. refl) (λ t. refl) (λ t. refl) (λ t. refl)
        (λ t h. cc) (λ t g h. refl) s w

  pub fail-WellFormed :
      (cause : Option Failure) (requeue : Bool) → WellFormed (fail id token cause requeue at s).0
  unfolding fail
  fail-WellFormed cause requeue =
      change-WellFormed id (check_lease token) (abandoned cause requeue at) (λ t. ground arith)
        (λ t. ground arith) (λ t. ground arith) (λ t. ground arith) (λ t h. ground arith)
        (λ t g h. ground arith) s w

pub cancel-WellFormed :
    (id : GoString) (at : ℕ) (s : TaskStore) → WellFormed s → WellFormed (cancel id at s).0
unfolding cancel
cancel-WellFormed id at s w =
    change-WellFormed id is_waiting (withdrawn at) (λ t. refl) (λ t. refl) (λ t. refl) (λ t. refl)
      (λ t h. cc) (λ t g h. ground arith) s w
