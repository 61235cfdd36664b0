-- ===== src/Tests/AuditTests.antt =====
-- internal/auditbuf/buffer.go.
use mathlib.Core.List.{List, [], ◌∷◌}
use native.Mathlib.Omega.{arith}
use nit.Base.{
  Bool, count, ◌+◌, ◌≡◌, ◌≤◌, ◌<◌, ◌^◌, ◌⊎◌, refl, true, false, some, text, length, pos, negsuc,
}
use nit.Audit.Record.{Record}
use nit.Audit.Buffer.{
  BufferOptions, sizes_of, Buffer, new_buffer, Event, emit, send, close, receive, see_closed,
  drained, stop, answer, abandon, next_record, step, run_events, running, stopped, resting, pausing,
}
use nit.Audit.Buffer.Account.{each, total, given_by, given, run_events-accounts}
use nit.Audit.Buffer.Close.{CanAct, left, run_events-stops}

abbrev pushed : Record
pushed = record {
  occurred_at = 1;
  actor = text "alice";
  action = text "push.accepted";
  repository = text "api";
  branch = text "main";
  path = [];
  effect = text "allow";
  reason = text "granted";
  rule_id = text "writers";
  guard = [];
  policy_version = text "v1";
  request_id = text "r1";
  task_id = text "task-1";
}

abbrev small : BufferOptions
small = record { capacity = pos 2; batch_size = pos 2; retries = pos 1 }

-- Three records for a queue of two; the sink refuses the batch once, then the buffer is closed.
abbrev refused_once : List Event
refused_once =
    emit (pushed ∷ pushed ∷ pushed ∷ [])
    ∷ send 0
    ∷ send 0
    ∷ send 0
    ∷ receive
    ∷ receive
    ∷ answer false
    ∷ emit (pushed ∷ [])
    ∷ send 1
    ∷ close
    ∷ []

abbrev paused : Buffer
paused = record {
  queue = pushed ∷ [];
  batch = pushed ∷ pushed ∷ [];
  emitting = [] ∷ [] ∷ [];
  closed = true;
  stage = running;
  delivery = pausing 0;
  dropped = 1;
  delivered = [];
}

reaches_paused : run_events (sizes_of small) refused_once new_buffer ≡ some paused
unfolding run_events step next_record
reaches_paused = refl

abbrev to_the_end : List Event
to_the_end = abandon ∷ see_closed ∷ receive ∷ drained ∷ answer true ∷ stop ∷ []

abbrev ended : Buffer
ended = record paused {
  queue = [];
  batch = [];
  stage = stopped;
  delivery = resting;
  dropped = 3;
  delivered = (pushed ∷ []) ∷ [];
}

reaches_end : run_events (sizes_of small) to_the_end paused ≡ some ended
unfolding run_events step
reaches_end = refl

-- A call that passed the test for a closed buffer sends its record after the consumer has ended:
-- the record stays in the queue, neither delivered nor counted.
late_record :
    run_events
      (sizes_of small)
      (emit (pushed ∷ []) ∷ close ∷ see_closed ∷ drained ∷ stop ∷ send 0 ∷ [])
      new_buffer
    ≡ some (record new_buffer {
      queue = pushed ∷ [];
      emitting = [] ∷ [];
      closed = true;
      stage = stopped;
    })
unfolding run_events step next_record
late_record = refl

defaults :
    (sizes_of (record { capacity = pos 0; batch_size = negsuc 3; retries = negsuc 0 })).retries ≡ 3
defaults = refl

few_records : given_by each refused_once < 2 ^ 64
unfolding given_by given count
few_records = omega arith

run_events-accounts_example :
    (lost : List Record) × (paused.dropped ≡ length lost)
    × ((p : Record → Bool)
        → total p paused.delivered
            + count p paused.batch
            + count p paused.queue
            + total p paused.emitting
            + count p lost
          ≡ given_by p refused_once)
run_events-accounts_example =
    run_events-accounts (sizes_of small) refused_once paused reaches_paused few_records

run_events-stops_example :
    (length to_the_end ≤ left (sizes_of small) paused)
    × ((ended.stage ≡ stopped) ⊎ CanAct (sizes_of small) ended)
run_events-stops_example =
    run_events-stops small refused_once to_the_end paused ended reaches_paused refl
      (tt, (tt, (tt, (tt, (tt, (tt, tt)))))) reaches_end
