-- ===== src/Store/Runs.antt =====
-- internal/store/memory/tasks.go: sequences of the store's operations, in the order in which its
-- mutex lets them in.
use nit.Base.{ℕ, Bool, List, [], ◌∷◌, Option, GoString, All}
use nit.Store.Task.{Task, Failure, ClaimOptions}
use nit.Store.Memory.{
  TaskStore, new, create, claim, heartbeat, complete, fail, cancel, release_expired,
}
use nit.Store.Invariant.{
  WellFormed, IsSubmission, new-WellFormed, create-WellFormed, heartbeat-WellFormed,
  complete-WellFormed, fail-WellFormed, cancel-WellFormed, release_expired-WellFormed,
}
use nit.Store.Dispatch.{claim-WellFormed}

-- A call of an operation that changes the store: its ID and token first, its instant last.
pub data Command : Type 0 where
  submit : Task → ℕ → Command
  dispatch : ClaimOptions → GoString → ℕ → Command
  renew : GoString → GoString → ℕ → Command
  finish : GoString → GoString → GoString → ℕ → Command
  give_up : GoString → GoString → Option Failure → Bool → ℕ → Command
  withdraw : GoString → ℕ → Command
  reclaim : ℕ → Command

unfoldable pub run : Command → TaskStore → TaskStore
run (submit t clock) s = (create clock t s).0
run (dispatch opts token clock) s = (claim clock token opts s).0
run (renew id token at) s = (heartbeat id token at s).0
run (finish id token result at) s = (complete id token result at s).0
run (give_up id token cause requeue at) s = (fail id token cause requeue at s).0
run (withdraw id at) s = (cancel id at s).0
run (reclaim now) s = (release_expired now s).0

unfoldable pub run_all : List Command → TaskStore → TaskStore
run_all [] s = s
run_all (c ∷ cs) s = run_all cs (run c s)

-- A caller submits tasks that do not run yet.
abbrev pub IsProper : Command → Type 0
IsProper (submit t clock) = IsSubmission t
IsProper _ = Unit

run-WellFormed : (c : Command) (s : TaskStore) → IsProper c → WellFormed s → WellFormed (run c s)
unfolding run
run-WellFormed (submit t clock) s p w = create-WellFormed clock t s p w
run-WellFormed (dispatch opts token clock) s p w = claim-WellFormed clock token opts s w
run-WellFormed (renew id token at) s p w = heartbeat-WellFormed id token at s w
run-WellFormed (finish id token result at) s p w = complete-WellFormed id token at s w result
run-WellFormed (give_up id token cause requeue at) s p w =
    fail-WellFormed id token at s w cause requeue
run-WellFormed (withdraw id at) s p w = cancel-WellFormed id at s w
run-WellFormed (reclaim now) s p w = release_expired-WellFormed now s w

run_all_from :
    (cs : List Command) (s : TaskStore) → All IsProper cs → WellFormed s → WellFormed (run_all cs s)
unfolding run_all
run_all_from [] s p w = w
run_all_from (c ∷ cs) s (p, ps) w = run_all_from cs (run c s) ps (run-WellFormed c s p w)

-- Whatever calls reach an empty store, in whatever order, if only tasks that do not run yet are
-- submitted: at most one task of a partition runs, an ID names one task, a request ID of a tenant
-- became at most one task, and a task has a lease exactly while it runs.
pub run_all-WellFormed : (cs : List Command) → All IsProper cs → WellFormed (run_all cs new)
run_all-WellFormed cs p = run_all_from cs new p new-WellFormed
