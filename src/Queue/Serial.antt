-- ===== src/Queue/Serial.antt =====
-- internal/queue/queue.go: the queue's operations serialize the pushes to a branch.
use mathlib.Core.List.{List, [], ◌∷◌, ◌++◌}
use mathlib.Core.Path.{◌≡◌, refl}
use nit.Base.{
  ℕ, ◌≤◌, arith, Bool, true, false, ◌&&◌, none, Option, Option-cases, inl, inr, GoString, All, ◌==◌,
  is_empty, count,
}
use nit.Store.Task.{
  Task, TaskKind, task_push, running, state_eq, kind_eq, Failure, StoreError, ClaimOptions,
}
use nit.Store.Counts.{All-put, All-release, runs_in}
use nit.Store.Invariant.{
  WellFormed, IsSubmission, new-WellFormed, create-WellFormed, heartbeat-WellFormed,
  complete-WellFormed, fail-WellFormed, release_expired-WellFormed,
}
use nit.Store.Dispatch.{claim-WellFormed}
use nit.Store.Memory.{
  TaskStore, new, change, update, create, duplicate_of, claim, take_first, release_expired,
  heartbeat, complete, fail,
}
use nit.Queue.{
  Limits, Handle, partition_key, submit, prepared, claim_task, keep_alive, complete_task, fail_task,
  release_task, reap_expired,
}

-- Calls of the queue by the server, by runners and by the reaper, each at its instant.
pub data Call : Type 0 where
  submits : Task → ℕ → Call
  claims : GoString → List TaskKind → GoString → ℕ → Call
  renews : Handle → ℕ → Call
  completes : Handle → GoString → ℕ → Call
  fails : Handle → Option Failure → ℕ → Call
  releases : Handle → ℕ → Call
  reaps : ℕ → Call

unfoldable pub call : Limits → Call → TaskStore → TaskStore
call limits (submits t now) s = (submit now t s).0
call limits (claims holder kinds token now) s = (claim_task limits now token holder kinds s).0
call limits (renews h now) s = (keep_alive limits now h s).0
call limits (completes h result now) s = (complete_task now result h s).0
call limits (fails h cause now) s = (fail_task limits now cause h s).0
call limits (releases h now) s = (release_task now h s).0
call limits (reaps now) s = (reap_expired now s).0

unfoldable pub call_all : Limits → List Call → TaskStore → TaskStore
call_all limits [] s = s
call_all limits (c ∷ cs) s = call_all limits cs (call limits c s)

-- A property of tasks that leases and results do not touch.
module _ (P : Task → Type 0) where
  All-update :
      (id : GoString) (write : Task → Task) (ts : List Task)
      → ((t : Task) → P t → P (write t))
      → All P ts
      → All P (update id write ts)
  unfolding update
  All-update id write [] keeps h = tt
  All-update id write (t ∷ ts) keeps (ht, h) =
      let here = keeps t ht in let rest = All-update id write ts keeps h in ground arith

  All-change :
      (id : GoString) (guard : Task → Option StoreError) (write : Task → Task) (s : TaskStore)
      → ((t : Task) → P t → P (write t))
      → All P s.tasks
      → All P (change id guard write s).0.tasks
  unfolding change
  All-change id guard write s keeps h =
      let written = All-update id write s.tasks keeps h in ground arith

-- A task has the partition that the server gives it: `policy_id` finds a repository's ID in the
-- policy from the one in the database.
module _ (policy_id : GoString → GoString) where
  abbrev pub IsKeyed : Task → Type 0
  IsKeyed t = t.partition_key ≡ partition_key t.kind (policy_id t.repository_id) t.branch

  abbrev pub IsProperCall : Call → Type 0
  IsProperCall (submits t now) = IsSubmission t × IsKeyed t
  IsProperCall _ = Unit

  AllKeyed : TaskStore → Type 0
  AllKeyed s = All IsKeyed s.tasks

  take_first-IsKeyed :
      (opts : ClaimOptions) (now : ℕ) (token : GoString) (s : TaskStore) (ts : List Task)
      → AllKeyed s
      → AllKeyed (take_first opts now token s ts).0
  unfolding take_first AllKeyed
  take_first-IsKeyed opts now token s [] h = h
  take_first-IsKeyed opts now token s (t ∷ ts) h = All-update IsKeyed t.id _ s.tasks (λ u k. k) h

  create-IsKeyed :
      (clock : ℕ) (t : Task) (s : TaskStore)
      → IsKeyed t
      → AllKeyed s
      → AllKeyed (create clock t s).0
  unfolding create AllKeyed
  create-IsKeyed clock t s k h = elim (Option-cases (duplicate_of t s)) [
    | inl fresh ↦ rw (fresh, create) (All-put IsKeyed _ s.tasks (ground arith) h)
    | inr (old, e) ↦ rw (e, create) h
  ]

  call-IsKeyed :
      (limits : Limits) (c : Call) (s : TaskStore)
      → IsProperCall c
      → AllKeyed s
      → AllKeyed (call limits c s)
  unfolding call submit claim_task keep_alive complete_task fail_task release_task reap_expired
      claim heartbeat complete fail release_expired AllKeyed
  call-IsKeyed limits (submits t now) s (p, k) h = create-IsKeyed now (prepared now t) s k h
  call-IsKeyed limits (claims holder kinds token now) s p h =
      take_first-IsKeyed _ _ token _ _ (All-release IsKeyed _ s.tasks (λ t k. k) h)
  call-IsKeyed limits (renews hd now) s p h = All-change IsKeyed _ _ _ s (λ t k. k) h
  call-IsKeyed limits (completes hd result now) s p h = All-change IsKeyed _ _ _ s (λ t k. k) h
  call-IsKeyed limits (fails hd cause now) s p h =
      All-change IsKeyed _ _ _ s (λ t k. ground arith) h
  call-IsKeyed limits (releases hd now) s p h = All-change IsKeyed _ _ _ s (λ t k. k) h
  call-IsKeyed limits (reaps now) s p h = All-release IsKeyed now s.tasks (λ t k. k) h

  call-WellFormed :
      (limits : Limits) (c : Call) (s : TaskStore)
      → IsProperCall c
      → WellFormed s
      → WellFormed (call limits c s)
  unfolding call submit claim_task keep_alive complete_task fail_task release_task reap_expired
  call-WellFormed limits (submits t now) s (p, k) w =
      create-WellFormed now (prepared now t) s
        (record { waiting = ground (arith, p.waiting); unleased = p.unleased }) w
  call-WellFormed limits (claims holder kinds token now) s p w = claim-WellFormed now token _ s w
  call-WellFormed limits (renews h now) s p w = heartbeat-WellFormed h.task.id h.token _ s w
  call-WellFormed limits (completes h result now) s p w =
      complete-WellFormed h.task.id h.token now s w result
  call-WellFormed limits (fails h cause now) s p w =
      fail-WellFormed h.task.id h.token now s w cause _
  call-WellFormed limits (releases h now) s p w =
      fail-WellFormed h.task.id h.token now s w none true
  call-WellFormed limits (reaps now) s p w = release_expired-WellFormed now s w

  call_all-both :
      (limits : Limits) (cs : List Call) (s : TaskStore)
      → All IsProperCall cs
      → WellFormed s
      → AllKeyed s
      → WellFormed (call_all limits cs s) × AllKeyed (call_all limits cs s)
  unfolding call_all
  call_all-both limits [] s p w k = (w, k)
  call_all-both limits (c ∷ cs) s (p, ps) w k =
      call_all-both limits cs (call limits c s) ps (call-WellFormed limits c s p w)
        (call-IsKeyed limits c s p k)

-- A push to a branch of a repository that runs.
abbrev pub runs_push : GoString → GoString → Task → Bool
runs_push repository branch t =
    kind_eq t.kind task_push
    && (state_eq t.state running && (t.repository_id == repository && t.branch == branch))

module _ (policy_id : GoString → GoString) (repository branch : GoString) where
  abbrev key : GoString
  key = partition_key task_push (policy_id repository) branch

  runs_push-runs_in :
      (t : Task) → IsKeyed policy_id t → runs_push repository branch t ≡ true → runs_in key t ≡ true
  runs_push-runs_in t k h = ground arith

  count-runs_push :
      (ts : List Task)
      → All (IsKeyed policy_id) ts
      → count (runs_push repository branch) ts ≤ count (runs_in key) ts
  unfolding count
  count-runs_push [] k = omega arith
  count-runs_push (t ∷ ts) (k, ks) =
      let here = runs_push-runs_in t k in let rest = count-runs_push ts ks in ground arith

  key_filled : is_empty key ≡ false
  unfolding partition_key
  key_filled = filled (policy_id repository)
    where
      filled : (r : GoString) → is_empty (r ++ 58 ∷ branch) ≡ false
      filled [] = refl
      filled (x ∷ r) = refl

  -- Whatever the server, the runners and the reaper ask of the queue, in whatever order, with
  -- whatever handles and at whatever instants: if the server submits tasks that do not run yet, with
  -- the key of their repository and branch, at most one push to a branch of a repository runs.
  pub call_all-serial :
      (limits : Limits) (cs : List Call)
      → All (IsProperCall policy_id) cs
      → count (runs_push repository branch) (call_all limits cs new).tasks ≤ 1
  unfolding AllKeyed
  call_all-serial limits cs p =
      let (w, k) = call_all-both policy_id limits cs new p new-WellFormed tt in
      let serial = w.serial key key_filled in
      let fewer = count-runs_push (call_all limits cs new).tasks k in omega (arith, serial, fewer)
