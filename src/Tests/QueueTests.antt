-- ===== src/Tests/QueueTests.antt =====
-- internal/queue.
use mathlib.Core.List.{List, [], ◌∷◌}
use nit.Base.{
  ◌≡◌, ◌≤◌, refl, true, false, some, none, text, err, str_discrete, find, insert_by, sort_by,
  str_ltb, digits, pos, count, All,
}
use nit.Store.Task.{queued}
use nit.Store.Memory.{
  new, create, put, next_id, claim, release_expired, release, busy_partitions, is_candidate,
  candidates, take_first, older, update, check_lease, change, fail, task_at,
}
use nit.Store.Runs.{run, run_all}
use nit.Queue.{is_permanent, Limits, apply_defaults, Handle, partition_key, release_task}
use nit.Queue.Runner.{HandlerError, execute}
use nit.Queue.Serial.{
  Call, submits, claims, releases, call_all, call_all-serial, runs_push, IsProperCall,
}
use nit.Tests.StoreTests.{push_of, first_push, proper_first, proper_second, taken_first, busy}

abbrev limits : Limits
limits = apply_defaults (record {
  lease_for = pos 0;
  heartbeat_every = pos 0;
  max_attempts = pos 0;
  poll_every = pos 0;
})

abbrev handle : Handle
handle = record { task = taken_first; token = text "t1" }

abbrev broken_clone : HandlerError
broken_clone = record { protocol = none; is_canceled = false; message = text "clone failed" }

abbrev stopped_clone : HandlerError
stopped_clone = record broken_clone { is_canceled = true }

held : check_lease (text "t1") taken_first ≡ none
unfolding check_lease str_discrete
held = refl

-- A shutdown puts the task back, but the attempt is counted.
counted_on_shutdown :
    task_at (text "task-1") (execute limits 40 true (err stopped_clone) handle busy)
    ≡ some (record taken_first { state = queued; lease = none; started_at = none; updated_at = 40 })
unfolding run_all run create put digits next_id find str_discrete claim release_expired release
    candidates sort_by insert_by is_candidate busy_partitions take_first older str_ltb update
    execute release_task fail change check_lease
counted_on_shutdown = refl

abbrev a_day : List Call
a_day =
    submits first_push 10
    ∷ claims (text "w1") [] (text "t1") 20
    ∷ submits (push_of (text "b") (text "r2")) 30
    ∷ claims (text "w2") [] (text "t2") 40
    ∷ releases handle 50
    ∷ []

a_day_proper : All (IsProperCall (λ id. id)) a_day
unfolding partition_key
a_day_proper = ((proper_first, refl), (tt, ((proper_second, refl), (tt, (tt, tt)))))

call_all-serial_example :
    count (runs_push (text "api") (text "main")) (call_all limits a_day new).tasks ≤ 1
call_all-serial_example =
    call_all-serial (λ id. id) (text "api") (text "main") limits a_day a_day_proper

-- The worker's conflict is not among the codes that end a task for good.
conflict_is_retried : is_permanent (text "conflict") ≡ false
unfolding is_permanent str_discrete
conflict_is_retried = refl
