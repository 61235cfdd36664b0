-- ===== src/Store/Fencing.antt =====
-- internal/store/memory/tasks.go, `checkLease`: a worker that lost its lease changes nothing.
use nit.Base.{ℕ, ◌≡◌, ◌≢◌, Bool, Option, some, GoString, ok, arith, GoString}
use nit.Store.Task.{Task, Failure, ClaimOptions, lease_lost, StoreError}
use nit.Store.Memory.{
  TaskStore, task_at, change, check_lease, heartbeat, complete, fail, claim, claim_time, leased,
  first_error, check_finish_order, renewed, completed, abandoned,
}
use nit.Store.Invariant.{WellFormed}
use nit.Store.Dispatch.{claim-Took}

-- Every operation that presents the token answers that the lease is lost, and leaves the store.
pub record IsFencedOff (id token : GoString) (s : TaskStore) : Type 0 where
  pub renewing : (until : ℕ) → heartbeat id token until s ≡ (s, some lease_lost)
  pub completing :
      (result : GoString) (at : ℕ) → complete id token result at s ≡ (s, some lease_lost)
  pub failing :
      (cause : Option Failure) (requeue : Bool) (at : ℕ)
      → fail id token cause requeue at s ≡ (s, some lease_lost)

change-refused :
    (id : GoString) (guard : Task → Option StoreError) (write : Task → Task) (s : TaskStore)
    (t : Task) (e : StoreError)
    → task_at id s ≡ some t
    → guard t ≡ some e
    → change id guard write s ≡ (s, some e)
unfolding change
change-refused id guard write s t e found refused = rw (found, change, refused)

-- A stored task whose lease has another token, or that has none.
fenced :
    (id token : GoString) (s : TaskStore) (t : Task)
    → task_at id s ≡ some t
    → check_lease token t ≡ some lease_lost
    → IsFencedOff id token s
unfolding heartbeat complete fail
fenced id token s t found lost = record {
  renewing =
      λ until. change-refused id (check_lease token) (renewed until) s t lease_lost found lost;
  completing = λ result at.
      change-refused id (λ u. first_error (check_lease token u) (check_finish_order at u))
        (completed result at) s t lease_lost found (rw lost);
  failing = λ cause requeue at.
      change-refused id (check_lease token) (abandoned cause requeue at) s t lease_lost found lost;
}

-- A task that a claim wrote is closed to other tokens.
leased-refused :
    (opts : ClaimOptions) (now : ℕ) (token old : GoString) (t : Task)
    → token ≢ old
    → check_lease old (leased opts now token t) ≡ some lease_lost
unfolding check_lease
leased-refused opts now token old t ne = ground arith

-- After a claim on a well-formed store returned a task, every token but the one that was drawn for
-- this claim is refused for it: a heartbeat, a completion and a failure with such a token answer
-- that the lease is lost and leave the store as it is.
pub claim-IsFencedOff :
    (clock : ℕ) (token old : GoString) (opts : ClaimOptions) (s : TaskStore) (t : Task)
    → WellFormed s
    → (claim clock token opts s).1 ≡ ok t
    → token ≢ old
    → IsFencedOff t.id old (claim clock token opts s).0
claim-IsFencedOff clock token old opts s t w taken ne =
    let took = claim-Took clock token opts s t w taken in
    fenced t.id old (claim clock token opts s).0 t took.stored
      (rw took.task (leased-refused opts (claim_time clock opts) token old took.taken ne))
