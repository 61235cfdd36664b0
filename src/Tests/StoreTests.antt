-- ===== src/Tests/StoreTests.antt =====
-- internal/store/memory.
use mathlib.Core.List.{List, [], ◌∷◌}
use nit.Base.{
  false, digits, ◌≡◌, refl, none, some, text, GoString, ok, str_discrete, str_ltb, find, count,
  insert_by, sort_by, pos,
}
use nit.Store.Task.{Task, task_push, unset, queued, ClaimOptions, conflict}
use nit.Store.Memory.{
  fail, TaskStore, new, task_at, create, put, next_id, claim, leased, release_expired, release,
  busy_partitions, is_candidate, candidates, take_first, older, update, queue_position, is_ahead,
  complete, cancel, change, check_lease, check_finish_order,
}
use nit.Store.Invariant.{WellFormed, IsSubmission}
use nit.Store.Runs.{Command, submit, dispatch, run, run_all, run_all-WellFormed}
use nit.Store.Fencing.{IsFencedOff, claim-IsFencedOff}
use nit.Store.Lifecycle.{EvolvesTo, run-EvolvesTo}

-- A push to a branch.
abbrev pub push_of : GoString → GoString → Task
push_of id request = record {
  id = id;
  tenant_id = text "acme";
  request_id = request;
  kind = task_push;
  state = unset;
  user_id = text "ann";
  workspace_id = text "ws";
  repository_id = text "api";
  branch = text "main";
  partition_key = text "api:main";
  payload = [];
  outcome = [];
  error = none;
  attempts = 0;
  lease = none;
  created_at = 0;
  updated_at = 0;
  started_at = none;
  finished_at = none;
}

abbrev pub first_push : Task
first_push = push_of [] (text "r1")

abbrev second_push : Task
second_push = push_of (text "b") (text "r2")

abbrev pub worker : ClaimOptions
worker = record { holder = text "w1"; kinds = task_push ∷ []; lease_for = pos 5; now = 30 }

abbrev two_pushes : List Command
two_pushes = submit first_push 10 ∷ submit second_push 20 ∷ []

abbrev pub waiting : TaskStore
waiting = run_all two_pushes new

abbrev stored_first : Task
stored_first = record first_push {
  id = text "task-1";
  state = queued;
  created_at = 10;
  updated_at = 10;
}

abbrev pub taken_first : Task
taken_first = leased worker 30 (text "t1") stored_first

abbrev pub busy : TaskStore
busy = run (dispatch worker (text "t1") 30) waiting

stored_under_id : task_at (text "task-1") waiting ≡ some stored_first
unfolding run_all run create put digits next_id find str_discrete
stored_under_id = refl

claims_oldest : (claim 30 (text "t1") worker waiting).1 ≡ ok taken_first
unfolding run_all run create put digits next_id find str_discrete claim release_expired release
    candidates sort_by insert_by is_candidate busy_partitions take_first older str_ltb
claims_oldest = refl

-- The branch is busy: the second push waits behind the first.
second_waits : queue_position (text "b") busy ≡ ok 1
unfolding run_all run create put digits next_id find str_discrete claim release_expired release
    candidates sort_by insert_by is_candidate busy_partitions take_first update older str_ltb
    queue_position is_ahead count
second_waits = refl

running_stays : (cancel (text "task-1") 40 busy).1 ≡ some conflict
unfolding run_all run create put digits next_id find str_discrete claim release_expired release
    candidates sort_by insert_by is_candidate busy_partitions take_first update older str_ltb cancel
    change
running_stays = refl

early_finish : (complete (text "task-1") (text "t1") [] 29 busy).1 ≡ some conflict
unfolding run_all run create put digits next_id find str_discrete claim release_expired release
    candidates sort_by insert_by is_candidate busy_partitions take_first update older str_ltb
    complete change check_lease check_finish_order
early_finish = refl

pub proper_first : IsSubmission first_push
proper_first = record { waiting = refl; unleased = refl }

pub proper_second : IsSubmission second_push
proper_second = record { waiting = refl; unleased = refl }

first_in_queue : queue_position (text "task-1") waiting ≡ ok 0
unfolding run_all run create put digits next_id find str_discrete older str_ltb queue_position
    is_ahead count
first_in_queue = refl

waiting-WellFormed : WellFormed waiting
waiting-WellFormed = run_all-WellFormed two_pushes (proper_first, (proper_second, tt))

run_all-WellFormed_example : WellFormed (
    run_all
      (submit first_push 10 ∷ submit second_push 20 ∷ dispatch worker (text "t1") 30 ∷ [])
      new)
run_all-WellFormed_example =
    run_all-WellFormed
      (submit first_push 10 ∷ submit second_push 20 ∷ dispatch worker (text "t1") 30 ∷ [])
      (proper_first, (proper_second, (tt, tt)))

claim-IsFencedOff_example :
    IsFencedOff (text "task-1") (text "t") (claim 30 (text "t1") worker waiting).0
claim-IsFencedOff_example =
    claim-IsFencedOff 30 (text "t1") (text "t") worker waiting taken_first waiting-WellFormed
      claims_oldest (λ e. cc)

run-EvolvesTo_example :
    EvolvesTo (text "task-1") stored_first (run (dispatch worker (text "t1") 30) waiting)
run-EvolvesTo_example =
    run-EvolvesTo (dispatch worker (text "t1") 30) (text "task-1") waiting stored_first
      waiting-WellFormed tt stored_under_id

-- A failure before the task started is recorded.
early_failure : (fail (text "task-1") (text "t1") none false 29 busy).1 ≡ none
unfolding run_all run create put digits next_id find str_discrete claim release_expired release
    candidates sort_by insert_by is_candidate busy_partitions take_first update older str_ltb fail
    change check_lease
early_failure = refl
