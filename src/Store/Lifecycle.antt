-- ===== src/Store/Lifecycle.antt =====
-- internal/store/memory/tasks.go: the states that a stored task goes through.
use mathlib.Core.Path.{subst}
use nit.Base.{
  some-injective, ℕ, ◌≡◌, ◌≢◌, ◌∙◌, refl, sym, inl, inr, Bool, true, Option, none, some, List, [],
  ◌∷◌, GoString, arith, Bool-cases, Option-cases, find, ok, err, str_discrete, if◌then◌else◌,
  Result,
}
use nit.Store.Task.{
  Task, TaskKind, TaskState, queued, running, succeeded, failed, cancelled, state_eq, is_terminal,
  StoreError, ClaimOptions, Failure,
}
use nit.Store.Memory.{
  TaskStore, has_id, task_at, update, put, release, release_expired, is_stale, requeued, change,
  create, duplicate_of, with_id, submitted, claim, claim_time, leased, is_candidate, heartbeat,
  complete, fail, cancel, check_lease, renewed, completed, abandoned, is_waiting, withdrawn,
  first_error, check_finish_order, busy_partitions,
}
use nit.Store.Invariant.{WellFormed, release_expired-WellFormed}
use nit.Store.Dispatch.{
  find-update_self, find-update_ne, mem-task_at, Took, ClaimResult, claim-ClaimResult,
}
use nit.Store.Runs.{Command, submit, dispatch, renew, finish, give_up, withdraw, reclaim, run}

-- The transitions of a task's state.
abbrev pub follows : TaskState → TaskState → Bool
follows queued running = true
follows queued cancelled = true
follows running queued = true
follows running succeeded = true
follows running failed = true
follows old new = state_eq old new

-- What became of a stored task: its state followed, and nothing happened to one that was done.
pub record Evolved (t u : Task) : Type 0 where
  pub state : follows t.state u.state ≡ true
  pub final : is_terminal t.state ≡ true → u ≡ t

same-Evolved : (t : Task) → Evolved t t
same-Evolved t = record { state = ground arith; final = λ h. refl }

-- The task with this ID after a step.
abbrev pub EvolvesTo : GoString → Task → TaskStore → Type 0
EvolvesTo id t after = (u : Task) × (task_at id after ≡ some u) × Evolved t u

running-Evolved :
    (t u : Task) → state_eq t.state running ≡ true → follows running u.state ≡ true → Evolved t u
unfolding is_terminal
running-Evolved t u h k = record { state = ground arith; final = λ d. absurd (ground arith) }

check_lease-none :
    (token : GoString) (t : Task) → check_lease token t ≡ none → state_eq t.state running ≡ true
unfolding check_lease
check_lease-none token t h = ground arith

renewed-Evolved :
    (token : GoString) (at : ℕ) (t : Task) → check_lease token t ≡ none → Evolved t (renewed at t)
renewed-Evolved token at t h =
    let runs = check_lease-none token t h in running-Evolved t (renewed at t) runs (ground arith)

completed-Evolved :
    (token result : GoString) (at : ℕ) (t : Task)
    → first_error (check_lease token t) (check_finish_order at t) ≡ none
    → Evolved t (completed result at t)
completed-Evolved token result at t h =
    running-Evolved t (completed result at t) (check_lease-none token t (ground arith)) refl

abandoned-Evolved :
    (token : GoString) (cause : Option Failure) (requeue : Bool) (at : ℕ) (t : Task)
    → check_lease token t ≡ none
    → Evolved t (abandoned cause requeue at t)
abandoned-Evolved token cause requeue at t h =
    running-Evolved t (abandoned cause requeue at t) (check_lease-none token t h) (ground arith)

withdrawn-Evolved : (at : ℕ) (t : Task) → is_waiting t ≡ none → Evolved t (withdrawn at t)
unfolding is_terminal
withdrawn-Evolved at t h = record { state = ground arith; final = λ d. absurd (ground arith) }

-- The store's operations on one task.
change-EvolvesTo :
    (target id : GoString) (guard : Task → Option StoreError) (write : Task → Task) (s : TaskStore)
    (t : Task)
    → ((u : Task) → (write u).id ≡ u.id)
    → ((u : Task) → guard u ≡ none → Evolved u (write u))
    → task_at id s ≡ some t
    → EvolvesTo id t (change target guard write s).0
unfolding change
change-EvolvesTo target id guard write s t same evolves found =
    elim (Option-cases (task_at target s)) [
      | inl e ↦ rw (e, change) (t, found, same-Evolved t)
      | inr (v, e) ↦ elim (Option-cases (guard v)) [
        | inr (x, g) ↦ rw (e, change, g) (t, found, same-Evolved t)
        | inl g ↦
            rw (e, change, g)
              (elim (str_discrete id target) [
                | yes eq ↦
                    let it : v ≡ t = ground (arith, subst (λ i. task_at i s ≡ some t) eq found) in
                    (
                      write t,
                      subst (λ i. find (has_id i) (update target write s.tasks) ≡ some (write t))
                          (sym eq)
                          (find-update_self target write s.tasks t same
                            (subst (λ i. task_at i s ≡ some t) eq found)),
                      evolves t (subst (λ u. guard u ≡ none) it g),
                    )
                | no ne ↦
                    (t, find-update_ne target id write s.tasks same ne ∙ found, same-Evolved t)
              ])
      ]
    ]

-- What a release of stale leases makes of a task.
abbrev pub released : ℕ → Task → Task
released now t = if is_stale now t then requeued now t else t

find-release :
    (now : ℕ) (id : GoString) (ts : List Task) (t : Task)
    → find (has_id id) ts ≡ some t
    → find (has_id id) (release now ts) ≡ some (released now t)
unfolding find release
find-release now id [] t h = cc
find-release now id (u ∷ us) t h =
    let later = find-release now id us t in
    elim (Bool-cases (has_id id u)) [
      | inl e ↦ let here : u ≡ t = ground arith in rw (← here) (ground arith)
      | inr e ↦ ground arith
    ]

released-Evolved : (now : ℕ) (t : Task) → Evolved t (released now t)
unfolding is_terminal
released-Evolved now t = record { state = ground arith; final = λ h. ground arith }

leased-Evolved :
    (opts : ClaimOptions) (now : ℕ) (token : GoString) (t : Task)
    → state_eq (released now t).state queued ≡ true
    → Evolved t (leased opts now token (released now t))
unfolding is_terminal
leased-Evolved opts now token t h = record {
  state = ground arith;
  final = λ k. absurd (ground arith);
}

candidate-IsQueued :
    (kinds : List TaskKind) (busy : List GoString) (t : Task)
    → is_candidate kinds busy t ≡ true
    → state_eq t.state queued ≡ true
unfolding is_candidate
candidate-IsQueued kinds busy t h = ground arith

module _ (opts : ClaimOptions) (now : ℕ) (token id : GoString) (t : Task) (s : TaskStore)
    (w : WellFormed s) (found : task_at id s ≡ some (released now t)) where
  taken-Evolved :
      (u : Task) (after : TaskStore) → Took opts now token s u after → u.id ≡ id → Evolved t u
  taken-Evolved u after took same =
      let c = took.taken in
      let named : c.id ≡ id = subst (λ v. v.id ≡ id) took.task same in
      let there =
        subst (λ i. task_at i s ≡ some c) named
          (mem-task_at c s.tasks (w.one_id c.id) took.first.member) in
      let it : c ≡ released now t = some-injective (sym there ∙ found) in
      rw (took.task, it)
        (leased-Evolved opts now token t (
          candidate-IsQueued opts.kinds _ _ (
            subst (λ v. is_candidate opts.kinds (busy_partitions s.tasks) v ≡ true) it
              took.first.dispatchable)))

  ClaimResult-EvolvesTo :
      (r : TaskStore × Result StoreError Task) → ClaimResult opts now token s r → EvolvesTo id t r.0
  ClaimResult-EvolvesTo (after, err e) (_, same, _) =
      (released now t, rw same found, released-Evolved now t)
  ClaimResult-EvolvesTo (after, ok u) took = elim (str_discrete u.id id) [
    | yes e ↦ (u, subst (λ i. task_at i after ≡ some u) e took.stored, taken-Evolved u after took e)
    | no ne ↦ (released now t, took.others id (λ e. ne (sym e)) ∙ found, released-Evolved now t)
  ]

find-put_ne :
    (id : GoString) (t : Task) (ts : List Task)
    → t.id ≢ id
    → find (has_id id) (put t ts) ≡ find (has_id id) ts
unfolding find put
find-put_ne id t [] ne = ground arith
find-put_ne id t (u ∷ us) ne = ground (arith, find-put_ne id t us)

create-EvolvesTo :
    (id : GoString) (clock : ℕ) (new : Task) (s : TaskStore) (t : Task)
    → (with_id s new).1.id ≢ id
    → task_at id s ≡ some t
    → EvolvesTo id t (create clock new s).0
unfolding create
create-EvolvesTo id clock new s t ne found = elim (Option-cases (duplicate_of new s)) [
  | inr (old, e) ↦ rw (e, create) (t, found, same-Evolved t)
  | inl e ↦
      rw (e, create)
        (t, find-put_ne id (submitted clock (with_id s new).1) s.tasks ne ∙ found, same-Evolved t)
]

-- A call that stores no new task under an ID.
abbrev pub StoresOther : GoString → Command → TaskStore → Type 0
StoresOther id (submit t clock) s = (with_id s t).1.id ≢ id
StoresOther id _ s = Unit

-- A call on a well-formed store, other than one that submits a task under the same ID, keeps every
-- stored task: its state stays or makes one of the transitions from queued to running or cancelled
-- and from running to queued, succeeded or failed, and a task that is succeeded, failed or
-- cancelled is left as it is.
pub run-EvolvesTo :
    (c : Command) (id : GoString) (s : TaskStore) (t : Task)
    → WellFormed s
    → StoresOther id c s
    → task_at id s ≡ some t
    → EvolvesTo id t (run c s)
unfolding run heartbeat complete fail cancel claim release_expired
run-EvolvesTo (submit new clock) id s t w other found =
    create-EvolvesTo id clock new s t other found
run-EvolvesTo (dispatch opts token clock) id s t w other found =
    ClaimResult-EvolvesTo opts (claim_time clock opts) token id t _
      (release_expired-WellFormed _ s w) (find-release _ id s.tasks t found) _
      (claim-ClaimResult clock token opts s w)
run-EvolvesTo (renew target token at) id s t w other found =
    change-EvolvesTo target id _ (renewed at) s t (λ u. refl) (renewed-Evolved token at) found
run-EvolvesTo (finish target token result at) id s t w other found =
    change-EvolvesTo target id _ (completed result at) s t (λ u. refl)
      (completed-Evolved token result at) found
run-EvolvesTo (give_up target token cause requeue at) id s t w other found =
    change-EvolvesTo target id _ (abandoned cause requeue at) s t (λ u. ground arith)
      (abandoned-Evolved token cause requeue at) found
run-EvolvesTo (withdraw target at) id s t w other found =
    change-EvolvesTo target id _ (withdrawn at) s t (λ u. refl) (withdrawn-Evolved at) found
run-EvolvesTo (reclaim now) id s t w other found =
    (released now t, find-release now id s.tasks t found, released-Evolved now t)
