-- ===== src/Audit/Buffer/Limits.antt =====
-- internal/auditbuf/buffer.go: how long the queue, a batch and its retries can get.
use mathlib.Core.List.{List, [], ◌∷◌}
use mathlib.Core.Bool.{true, false}
use mathlib.Core.Path.{◌≡◌, refl, subst}
use mathlib.Core.Option.{Option, none, some}
use native.Mathlib.Omega.{arith}
use nit.Base.{
  or_default_positive, ◌<◌, ◌≤◌, length, length-append, Option-cases, some-injective, inl, inr, All,
  All-append,
}
use nit.Audit.Record.{Record}
use nit.Audit.Buffer.{
  BufferOptions, Sizes, sizes_of, Buffer, new_buffer, Event, emit, send, close, receive, tick,
  see_closed, drained, stop, answer, wake, abandon, next_record, step, run_events, resting,
  offering, pausing, Delivery, on_receive, on_answer, on_send,
}

-- The batch leaves room for a record while nothing is delivered.
abbrev pub BatchFits : Sizes → List Record → Delivery → Type 0
BatchFits sizes batch resting = length batch < sizes.batch_size
BatchFits sizes batch (offering k) = length batch ≤ sizes.batch_size
BatchFits sizes batch (pausing k) = length batch ≤ sizes.batch_size

abbrev pub AttemptFits : Sizes → Delivery → Type 0
AttemptFits sizes resting = Unit
AttemptFits sizes (offering k) = k ≤ sizes.retries
AttemptFits sizes (pausing k) = k < sizes.retries

-- The queue, the batch, the number of the attempt and the delivered batches.
abbrev pub IsWithinLimits : Sizes → Buffer → Type 0
IsWithinLimits sizes b =
    (length b.queue ≤ sizes.capacity)
    × BatchFits sizes b.batch b.delivery
    × AttemptFits sizes b.delivery
    × All (λ d. length d ≤ sizes.batch_size) b.delivered

module _ (sizes : Sizes) where
  on_send-IsWithinLimits :
      (o : Option (Record × List (List Record))) (b : Buffer) {b' : Buffer}
      → IsWithinLimits sizes b
      → on_send sizes o b ≡ some b'
      → IsWithinLimits sizes b'
  on_send-IsWithinLimits none b w e = cc
  on_send-IsWithinLimits (some (r, calls)) b w e = ground (arith, length-append b.queue (r ∷ []))

  on_receive-IsWithinLimits :
      (q : List Record) (d : Delivery) (b : Buffer) {b' : Buffer}
      → b.queue ≡ q
      → b.delivery ≡ d
      → IsWithinLimits sizes b
      → on_receive sizes q d b ≡ some b'
      → IsWithinLimits sizes b'
  on_receive-IsWithinLimits [] d b same at w e = cc
  on_receive-IsWithinLimits (r ∷ rest) (offering k) b same at w e = cc
  on_receive-IsWithinLimits (r ∷ rest) (pausing k) b same at w e = cc
  on_receive-IsWithinLimits (r ∷ rest) resting b same at w e =
      ground (arith, length-append b.batch (r ∷ []))

  on_answer-IsWithinLimits :
      (d : Delivery) (b : Buffer) {b' : Buffer}
      → b.delivery ≡ d
      → 0 < sizes.batch_size
      → IsWithinLimits sizes b
      → on_answer sizes true d b ≡ some b'
      → IsWithinLimits sizes b'
  on_answer-IsWithinLimits resting b at room w e = cc
  on_answer-IsWithinLimits (pausing k) b at room w e = cc
  on_answer-IsWithinLimits (offering k) b at room w e =
      let fits : length b.batch ≤ sizes.batch_size = subst (BatchFits sizes b.batch) at w.1 in
      let kept =
        All-append (λ d. length d ≤ sizes.batch_size) b.delivered (b.batch ∷ []) w.3 (fits, tt) in
      subst (IsWithinLimits sizes) (some-injective e) (w.0, room, tt, kept)

  -- One action keeps within the limits.
  pub IsWithinLimits-step :
      (ev : Event) (b : Buffer) {b' : Buffer}
      → 0 < sizes.batch_size
      → IsWithinLimits sizes b
      → step sizes ev b ≡ some b'
      → IsWithinLimits sizes b'
  unfolding step
  IsWithinLimits-step (send i) b room w e = on_send-IsWithinLimits (next_record i b.emitting) b w e
  IsWithinLimits-step receive b room w e =
      on_receive-IsWithinLimits b.queue b.delivery b refl refl w e
  IsWithinLimits-step (answer true) b room w e = on_answer-IsWithinLimits b.delivery b refl room w e
  IsWithinLimits-step (emit rs) b room w e = ground arith
  IsWithinLimits-step close b room w e = ground arith
  IsWithinLimits-step tick b room w e = ground arith
  IsWithinLimits-step see_closed b room w e = ground arith
  IsWithinLimits-step drained b room w e = ground arith
  IsWithinLimits-step stop b room w e = ground arith
  IsWithinLimits-step wake b room w e = ground arith
  IsWithinLimits-step abandon b room w e = ground arith
  IsWithinLimits-step (answer false) b room w e = ground arith

  IsWithinLimits-run_events :
      (es : List Event) (b : Buffer) {b' : Buffer}
      → 0 < sizes.batch_size
      → IsWithinLimits sizes b
      → run_events sizes es b ≡ some b'
      → IsWithinLimits sizes b'
  unfolding run_events
  IsWithinLimits-run_events [] b room w e = subst (IsWithinLimits sizes) (some-injective e) w
  IsWithinLimits-run_events (ev ∷ es) b room w e = elim (Option-cases (step sizes ev b)) [
    | inl f ↦ absurd (ground arith)
    | inr (mid, f) ↦
        IsWithinLimits-run_events es mid room (IsWithinLimits-step ev b room w f)
          (rw (f, run_events) at e)
  ]

-- Whatever the options, however the goroutines interleave and whatever the sink answers: the queue
-- never holds more records than its capacity, the batch and each delivered batch hold at most the
-- size of a batch, and the batch has room for a record while it is not being delivered; the number
-- of an attempt is at most the number of retries, and less while another attempt is awaited.
pub run_events-IsWithinLimits :
    (options : BufferOptions) (es : List Event) (b : Buffer)
    → run_events (sizes_of options) es new_buffer ≡ some b
    → IsWithinLimits (sizes_of options) b
run_events-IsWithinLimits options es b e =
    let room = or_default_positive options.batch_size 256 (omega arith) in
    IsWithinLimits-run_events (sizes_of options) es new_buffer room (omega arith, room, tt, tt) e
