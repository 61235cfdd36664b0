-- ===== src/Audit/Buffer.antt =====
-- internal/auditbuf/buffer.go: the bounded queue between the callers of `Emit` and a slow sink.
--
-- A state is what the goroutines share, and where each of them stands: every `Emit` that passed the
-- test for a closed buffer has a list of the records that it has still to send, and the one consumer
-- stands in its loop and, within it, in `deliver`. An event is one atomic action of one goroutine.
-- Timers and the sink's answers are events; what is logged is left out.
pub mod Account
pub mod Limits
pub mod Close
use mathlib.Core.List.{List, [], ◌∷◌, ◌++◌}
use mathlib.Core.Bool.{Bool, true, false, not}
use mathlib.Core.Option.{Option, none, some}
use nit.Base.{
  ℕ, zero, suc, ◌+◌, ◌%◌, ◌^◌, or_default, ltb, leb, is_empty, length, if◌then◌else◌, ℤ, pos,
  negsuc,
}
use nit.Audit.Record.{Record}

-- The limits of the options. The intervals only time the events.
pub record BufferOptions : Type 0 where
  pub capacity : ℤ
  pub batch_size : ℤ
  pub retries : ℤ

pub record Sizes : Type 0 where
  pub capacity : ℕ
  pub batch_size : ℕ
  pub retries : ℕ

-- No retry is a choice; a negative number of retries stands for the default.
abbrev pub retries_of : ℤ → ℕ
retries_of (pos n) = n
retries_of (negsuc n) = 3

abbrev pub sizes_of : BufferOptions → Sizes
sizes_of o = record {
  capacity = or_default o.capacity 4096;
  batch_size = or_default o.batch_size 256;
  retries = retries_of o.retries;
}

-- Where the consumer stands: in its `select`, in the inner loop after `closed`, in the last flush,
-- or at its end, where `done` is closed.
pub data Stage : Type 0 where
  running : Stage
  draining : Stage
  finishing : Stage
  stopped : Stage

-- Whether the consumer delivers: it offers the batch, or waits to offer it again.
pub data Delivery : Type 0 where
  resting : Delivery
  offering : ℕ → Delivery
  pausing : ℕ → Delivery

pub record Buffer : Type 0 where
  pub queue : List Record
  pub batch : List Record
  pub emitting : List (List Record)
  pub closed : Bool
  pub stage : Stage
  pub delivery : Delivery
  -- An `atomic.Uint64`.
  pub dropped : ℕ
  -- The batches that the sink accepted, in order.
  pub delivered : List (List Record)

abbrev pub new_buffer : Buffer
new_buffer = record {
  queue = [];
  batch = [];
  emitting = [];
  closed = false;
  stage = running;
  delivery = resting;
  dropped = 0;
  delivered = [];
}

pub data Event : Type 0 where
  -- `Emit` is called; the `i`th emitting call sends its next record.
  emit : List Record → Event
  send : ℕ → Event
  -- `Close` is called.
  close : Event
  -- The consumer takes a record from the queue, is woken by the ticker, sees that the buffer is
  -- closed, finds the queue empty, and ends.
  receive tick see_closed drained stop : Event
  -- The sink answers, with or without an error; the pause is over; the pause ends by `closed`.
  answer : Bool → Event
  wake abandon : Event

abbrev pub add_dropped : ℕ → Buffer → Buffer
add_dropped n b = record b { dropped = (b.dropped + n) % 2 ^ 64 }

-- The next record of the `i`th call, and what the calls have still to send.
unfoldable pub next_record : ℕ → List (List Record) → Option (Record × List (List Record))
next_record i [] = none
next_record zero ([] ∷ calls) = none
next_record zero ((r ∷ rs) ∷ calls) = some (r, rs ∷ calls)
next_record (suc i) (rs ∷ calls) = elim (next_record i calls) [
  | none ↦ none
  | some (r, calls') ↦ some (r, rs ∷ calls')
]

-- The `select` of `Emit`: the record is queued if there is room.
abbrev pub offer_record : Sizes → Record → Buffer → Buffer
offer_record sizes r b =
    if ltb (length b.queue) sizes.capacity
    then record b { queue = b.queue ++ r ∷ [] }
    else add_dropped 1 b

-- `flush`: an empty batch is not delivered.
abbrev pub flush : Buffer → Buffer
flush b = if is_empty b.batch then b else record b { delivery = offering 0 }

-- A record joins the batch, which is delivered when it is full.
abbrev pub collect : Sizes → Record → List Record → Buffer → Buffer
collect sizes r rest b =
    let b' = record b { queue = rest; batch = b.batch ++ r ∷ [] } in
    if leb sizes.batch_size (length b'.batch) then record b' { delivery = offering 0 } else b'

-- The batch is given up.
abbrev pub give_up : Buffer → Buffer
give_up b = add_dropped (length b.batch) (record b { batch = []; delivery = resting })

abbrev pub is_collecting : Stage → Bool
is_collecting running = true
is_collecting draining = true
is_collecting _ = false

abbrev pub on_emit : List Record → Buffer → Buffer
on_emit rs b =
    if is_empty rs
    then b
    else if b.closed
    then add_dropped (length rs) b
    else record b { emitting = b.emitting ++ rs ∷ [] }

abbrev pub on_send : Sizes → Option (Record × List (List Record)) → Buffer → Option Buffer
on_send sizes none b = none
on_send sizes (some (r, calls)) b = some (offer_record sizes r (record b { emitting = calls }))

abbrev pub on_receive : Sizes → List Record → Delivery → Buffer → Option Buffer
on_receive sizes (r ∷ rest) resting b =
    if is_collecting b.stage then some (collect sizes r rest b) else none
on_receive sizes _ _ b = none

abbrev pub on_tick : Stage → Delivery → Buffer → Option Buffer
on_tick running resting b = some (flush b)
on_tick _ _ b = none

abbrev pub on_see_closed : Stage → Delivery → Buffer → Option Buffer
on_see_closed running resting b = if b.closed then some (record b { stage = draining }) else none
on_see_closed _ _ b = none

abbrev pub on_drained : Stage → Delivery → Buffer → Option Buffer
on_drained draining resting b =
    if is_empty b.queue then some (flush (record b { stage = finishing })) else none
on_drained _ _ b = none

abbrev pub on_stop : Stage → Delivery → Buffer → Option Buffer
on_stop finishing resting b = some (record b { stage = stopped })
on_stop _ _ b = none

abbrev pub on_answer : Sizes → Bool → Delivery → Buffer → Option Buffer
on_answer sizes true (offering attempt) b =
    some (record b { delivered = b.delivered ++ b.batch ∷ []; batch = []; delivery = resting })
on_answer sizes false (offering attempt) b =
    some (if leb sizes.retries attempt then give_up b else record b { delivery = pausing attempt })
on_answer sizes ok _ b = none

abbrev pub on_wake : Delivery → Buffer → Option Buffer
on_wake (pausing attempt) b = some (record b { delivery = offering (suc attempt) })
on_wake _ b = none

abbrev pub on_abandon : Delivery → Buffer → Option Buffer
on_abandon (pausing attempt) b = if b.closed then some (give_up b) else none
on_abandon _ b = none

-- One action; `none` where the goroutine cannot take it.
unfoldable pub step : Sizes → Event → Buffer → Option Buffer
step sizes (emit rs) b = some (on_emit rs b)
step sizes (send i) b = on_send sizes (next_record i b.emitting) b
step sizes close b = some (record b { closed = true })
step sizes receive b = on_receive sizes b.queue b.delivery b
step sizes tick b = on_tick b.stage b.delivery b
step sizes see_closed b = on_see_closed b.stage b.delivery b
step sizes drained b = on_drained b.stage b.delivery b
step sizes stop b = on_stop b.stage b.delivery b
step sizes (answer ok) b = on_answer sizes ok b.delivery b
step sizes wake b = on_wake b.delivery b
step sizes abandon b = on_abandon b.delivery b

-- The actions of all goroutines in one order; `none` where one could not be taken.
unfoldable pub run_events : Sizes → List Event → Buffer → Option Buffer
run_events sizes [] b = some b
run_events sizes (e ∷ es) b = elim (step sizes e b) [
  | none ↦ none
  | some b' ↦ run_events sizes es b'
]
