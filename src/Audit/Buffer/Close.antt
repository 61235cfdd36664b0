-- ===== src/Audit/Buffer/Close.antt =====
-- internal/auditbuf/buffer.go: what the consumer does once the buffer is closed.
use mathlib.Core.List.{List, [], ◌∷◌}
use mathlib.Core.Bool.{true, false}
use mathlib.Core.Path.{◌≡◌, refl, ◌∙◌}
use mathlib.Core.Logic.{◌≢◌, ◌⊎◌}
use mathlib.Core.Option.{none, some}
use native.Mathlib.Omega.{arith}
use nit.Base.{or_default_positive, ℕ, ◌+◌, ◌-◌, ◌*◌, ◌<◌, ◌≤◌, length, Option-cases, inl, inr, All}
use nit.Audit.Record.{Record}
use nit.Audit.Buffer.{
  BufferOptions, Sizes, sizes_of, Buffer, new_buffer, Event, emit, send, close, receive, tick,
  see_closed, drained, stop, answer, wake, abandon, step, run_events, running, draining, finishing,
  stopped, resting, offering, pausing, Stage, Delivery, on_receive,
}
use nit.Audit.Buffer.Limits.{IsWithinLimits, IsWithinLimits-step, run_events-IsWithinLimits}

-- The actions of the consumer and of the sink, other than a tick.
abbrev pub IsConsumer : Event → Type 0
IsConsumer (emit rs) = ⊥
IsConsumer (send i) = ⊥
IsConsumer close = ⊥
IsConsumer tick = ⊥
IsConsumer _ = Unit

-- How many more actions a delivery, a stage and a buffer can take.
unfoldable pub delivery_left : Sizes → Delivery → ℕ
delivery_left sizes resting = 0
delivery_left sizes (offering k) = 2 * (sizes.retries - k) + 1
delivery_left sizes (pausing k) = 2 * (sizes.retries - k)

unfoldable pub stage_left : Sizes → Stage → ℕ
stage_left sizes running = 2 * sizes.retries + 4
stage_left sizes draining = 2 * sizes.retries + 3
stage_left sizes finishing = 1
stage_left sizes stopped = 0

unfoldable pub queue_left : Sizes → List Record → ℕ
queue_left sizes [] = 0
queue_left sizes (r ∷ rs) = 2 * sizes.retries + 3 + queue_left sizes rs

unfoldable pub left : Sizes → Buffer → ℕ
unfolding delivery_left stage_left queue_left
left sizes b = stage_left sizes b.stage + queue_left sizes b.queue + delivery_left sizes b.delivery

module _ (sizes : Sizes) where
  on_receive-left :
      (q : List Record) (d : Delivery) (b : Buffer) {b' : Buffer}
      → b.queue ≡ q
      → b.delivery ≡ d
      → on_receive sizes q d b ≡ some b'
      → (left sizes b' < left sizes b) × (b'.closed ≡ b.closed)
  unfolding left stage_left delivery_left queue_left
  on_receive-left [] d b same at e = cc
  on_receive-left (r ∷ rest) (offering k) b same at e = cc
  on_receive-left (r ∷ rest) (pausing k) b same at e = cc
  on_receive-left (r ∷ rest) resting b same at e = ground arith

  -- Each action of the consumer leaves less to do.
  left-step :
      (ev : Event) (b : Buffer) {b' : Buffer}
      → IsConsumer ev
      → IsWithinLimits sizes b
      → step sizes ev b ≡ some b'
      → (left sizes b' < left sizes b) × (b'.closed ≡ b.closed)
  unfolding step left stage_left delivery_left
  left-step (emit rs) b c w e = absurd c
  left-step (send i) b c w e = absurd c
  left-step close b c w e = absurd c
  left-step tick b c w e = absurd c
  left-step receive b c w e = on_receive-left b.queue b.delivery b refl refl e
  left-step see_closed b c w e = ground arith
  left-step drained b c w e = ground arith
  left-step stop b c w e = ground arith
  left-step (answer true) b c w e = ground arith
  left-step (answer false) b c w e = ground arith
  left-step wake b c w e = ground arith
  left-step abandon b c w e = ground arith

  abbrev pub CanAct : Buffer → Type 0
  CanAct b = (ev : Event) × IsConsumer ev × (step sizes ev b ≢ none)

  can_act :
      (s : Stage) (d : Delivery) (q : List Record) (b : Buffer)
      → b.stage ≡ s
      → b.delivery ≡ d
      → b.queue ≡ q
      → b.closed ≡ true
      → (s ≡ stopped) ⊎ CanAct b
  unfolding step
  can_act s (offering k) q b hs hd hq hc = inr (answer true, tt, λ h. ground arith)
  can_act s (pausing k) q b hs hd hq hc = inr (wake, tt, λ h. ground arith)
  can_act stopped resting q b hs hd hq hc = inl refl
  can_act finishing resting q b hs hd hq hc = inr (stop, tt, λ h. ground arith)
  can_act running resting q b hs hd hq hc = inr (see_closed, tt, λ h. ground arith)
  can_act draining resting [] b hs hd hq hc = inr (drained, tt, λ h. ground arith)
  can_act draining resting (r ∷ rest) b hs hd hq hc = inr (receive, tt, λ h. ground arith)

  run_events-left :
      (es : List Event) (b : Buffer) {b' : Buffer}
      → 0 < sizes.batch_size
      → All IsConsumer es
      → IsWithinLimits sizes b
      → run_events sizes es b ≡ some b'
      → (length es + left sizes b' ≤ left sizes b) × (b'.closed ≡ b.closed)
  unfolding run_events
  run_events-left [] b room c w e = ground arith
  run_events-left (ev ∷ es) b room (c, cs) w e = elim (Option-cases (step sizes ev b)) [
    | inl f ↦ absurd (ground arith)
    | inr (mid, f) ↦
        let first = left-step ev b c w f in
        let rest =
          run_events-left es mid room cs (IsWithinLimits-step sizes ev b room w f)
            (rw (f, run_events) at e) in
        ground arith
  ]

-- Once the buffer is closed and however far the goroutines had come, the consumer, ticks aside, takes
-- at most as many actions as there are left, and until it has stopped it can always take another
-- one: so `Close` returns, whatever the sink answers, as long as the sink answers.
pub run_events-stops :
    (options : BufferOptions) (es cs : List Event) (b b' : Buffer)
    → run_events (sizes_of options) es new_buffer ≡ some b
    → b.closed ≡ true
    → All IsConsumer cs
    → run_events (sizes_of options) cs b ≡ some b'
    → (length cs ≤ left (sizes_of options) b)
      × ((b'.stage ≡ stopped) ⊎ CanAct (sizes_of options) b')
run_events-stops options es cs b b' e closed consumes f =
    let room = or_default_positive options.batch_size 256 (omega arith) in
    let w = run_events-IsWithinLimits options es b e in
    let (bound, same) = run_events-left (sizes_of options) cs b room consumes w f in
    (
      omega (arith, bound),
      can_act (sizes_of options) b'.stage b'.delivery b'.queue b' refl refl refl (same ∙ closed),
    )
