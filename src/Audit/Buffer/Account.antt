-- ===== src/Audit/Buffer/Account.antt =====
-- internal/auditbuf/buffer.go: what becomes of each record that is given to `Emit`.
use mathlib.Core.List.{List, [], ◌∷◌, ◌++◌}
use mathlib.Core.Bool.{Bool, true, false}
use mathlib.Core.Path.{◌≡◌, refl, subst, sym, ap, ◌∙◌}
use mathlib.Core.Option.{some}
use native.Mathlib.Omega.{arith}
use nit.Base.{
  ℕ, zero, suc, ◌+◌, ◌%◌, ◌^◌, ◌<◌, ltb, leb, length, length-append, Bool-cases, Option-cases,
  some-injective, inl, inr, count,
}
use nit.Audit.Record.{Record}
use nit.Audit.Buffer.{
  Sizes, Buffer, new_buffer, Event, emit, send, close, receive, tick, see_closed, drained, stop,
  answer, wake, abandon, next_record, step, run_events, resting, offering, pausing, Delivery,
  on_receive, on_answer, on_abandon, give_up,
}

-- The records of several lists that have a property.
unfoldable pub total : (Record → Bool) → List (List Record) → ℕ
total p [] = 0
total p (rs ∷ calls) = count p rs + total p calls

-- The records with a property that are delivered, or on their way.
unfoldable pub held : (Record → Bool) → Buffer → ℕ
held p b = total p b.delivered + count p b.batch + count p b.queue + total p b.emitting

unfoldable pub given : (Record → Bool) → Event → ℕ
given p (emit rs) = count p rs
given p _ = 0

-- The records with a property that were given to `Emit`.
unfoldable pub given_by : (Record → Bool) → List Event → ℕ
unfolding given
given_by p [] = 0
given_by p (e ∷ es) = given p e + given_by p es

abbrev pub each : Record → Bool
each r = true

-- Every record is held or lost, whatever tells it from others, and the counter counts the lost ones.
abbrev pub IsAccounted : ((Record → Bool) → ℕ) → Buffer → Type 0
IsAccounted n b =
    (lost : List Record) × ((p : Record → Bool) → held p b + count p lost ≡ n p)
    × (b.dropped ≡ length lost % 2 ^ 64)

count-each : (rs : List Record) → count each rs ≡ length rs
unfolding count
count-each [] = refl
count-each (r ∷ rs) = ground (arith, count-each rs)

count-append :
    (p : Record → Bool) (xs ys : List Record) → count p (xs ++ ys) ≡ count p xs + count p ys
unfolding count
count-append p [] ys = omega arith
count-append p (x ∷ xs) ys = ground (arith, count-append p xs ys)

total-append :
    (p : Record → Bool) (xs ys : List (List Record)) → total p (xs ++ ys) ≡ total p xs + total p ys
unfolding total
total-append p [] ys = omega arith
total-append p (x ∷ xs) ys = omega (arith, total-append p xs ys)

total-next_record :
    (p : Record → Bool) (i : ℕ) (calls : List (List Record)) {r : Record}
    {rest : List (List Record)}
    → next_record i calls ≡ some (r, rest)
    → total p calls ≡ count p (r ∷ []) + total p rest
unfolding total next_record count
total-next_record p zero [] e = cc
total-next_record p (suc i) [] e = cc
total-next_record p zero ([] ∷ calls) e = cc
total-next_record p zero ((r ∷ rs) ∷ calls) e = ground arith
total-next_record p (suc i) (rs ∷ calls) e = elim (Option-cases (next_record i calls)) [
  | inl h ↦ absurd (ground arith)
  | inr ((r', rest'), h) ↦ let ih = total-next_record p i calls h in ground arith
]

mod_add : (d lost n : ℕ) → d ≡ lost % 2 ^ 64 → (d + n) % 2 ^ 64 ≡ (lost + n) % 2 ^ 64
mod_add d lost n h = omega arith

-- More records are lost, and counted.
lose :
    (d : ℕ) (lost rs : List Record)
    → d ≡ length lost % 2 ^ 64
    → (d + length rs) % 2 ^ 64 ≡ length (lost ++ rs) % 2 ^ 64
lose d lost rs h =
    mod_add d (length lost) (length rs) h ∙ ap (λ n. n % 2 ^ 64) (sym (length-append lost rs))

on_receive-held :
    (sizes : Sizes) (q : List Record) (d : Delivery) (b : Buffer) {b' : Buffer}
    → b.queue ≡ q
    → on_receive sizes q d b ≡ some b'
    → ((p : Record → Bool) → held p b' ≡ held p b) × (b'.dropped ≡ b.dropped)
unfolding held
on_receive-held sizes [] d b same e = cc
on_receive-held sizes (r ∷ rest) (offering k) b same e = cc
on_receive-held sizes (r ∷ rest) (pausing k) b same e = cc
on_receive-held sizes (r ∷ rest) resting b same e = (
  λ p.
      let moved = count-append p b.batch (r ∷ []) in
      let front = ap (count p) same ∙ count-append p (r ∷ []) rest in ground arith,
  ground arith,
)

give_up-IsAccounted :
    (b : Buffer) (n : (Record → Bool) → ℕ) → IsAccounted n b → IsAccounted n (give_up b)
unfolding held count
give_up-IsAccounted b n (lost, h, d) = (
  lost ++ b.batch,
  λ p. let lose_p = count-append p lost b.batch in let was = h p in ground arith,
  lose b.dropped lost b.batch d,
)

on_answer-IsAccounted :
    (sizes : Sizes) (d : Delivery) (b : Buffer) (n : (Record → Bool) → ℕ) {b' : Buffer}
    → IsAccounted n b
    → on_answer sizes false d b ≡ some b'
    → IsAccounted n b'
unfolding held
on_answer-IsAccounted sizes resting b n w e = cc
on_answer-IsAccounted sizes (pausing k) b n w e = cc
on_answer-IsAccounted sizes (offering k) b n (lost, h, d) e =
    elim (Bool-cases (leb sizes.retries k)) [
      | inl last ↦
          subst (IsAccounted n) (some-injective (rw last at e))
            (give_up-IsAccounted b n (lost, h, d))
      | inr again ↦ subst (IsAccounted n) (some-injective (rw again at e)) (lost, h, d)
    ]

on_abandon-IsAccounted :
    (d : Delivery) (b : Buffer) (n : (Record → Bool) → ℕ) {b' : Buffer}
    → IsAccounted n b
    → on_abandon d b ≡ some b'
    → IsAccounted n b'
unfolding held
on_abandon-IsAccounted resting b n w e = cc
on_abandon-IsAccounted (offering k) b n w e = cc
on_abandon-IsAccounted (pausing k) b n w e = elim (Bool-cases b.closed) [
  | inl c ↦ subst (IsAccounted n) (some-injective (rw c at e)) (give_up-IsAccounted b n w)
  | inr c ↦ absurd (ground arith)
]

recount :
    (b : Buffer) (n m : (Record → Bool) → ℕ)
    → ((p : Record → Bool) → n p ≡ m p)
    → IsAccounted n b
    → IsAccounted m b
recount b n m same (lost, h, d) = (lost, λ p. h p ∙ same p, d)

-- An action that gives no record and loses none.
keeps :
    (b b' : Buffer) (n : (Record → Bool) → ℕ)
    → ((p : Record → Bool) → held p b' ≡ held p b)
    → b'.dropped ≡ b.dropped
    → IsAccounted n b
    → IsAccounted (λ p. n p + 0) b'
keeps b b' n same dropped (lost, h, d) =
    (lost, λ p. let was = h p in let moved = same p in omega arith, dropped ∙ d)

-- One action keeps the account.
IsAccounted-step :
    (sizes : Sizes) (e : Event) (b : Buffer) (n : (Record → Bool) → ℕ) {b' : Buffer}
    → IsAccounted n b
    → step sizes e b ≡ some b'
    → IsAccounted (λ p. n p + given p e) b'
unfolding step held total given count
IsAccounted-step sizes (emit []) b n (lost, h, d) e =
    (lost, λ p. let was = h p in ground arith, ground arith)
IsAccounted-step sizes (emit (r ∷ rs)) b n (lost, h, d) e = elim (Bool-cases b.closed) [
  | inl c ↦ (
    lost ++ (r ∷ rs),
    λ p. let was = h p in let more = count-append p lost (r ∷ rs) in ground arith,
    ground (arith, lose b.dropped lost (r ∷ rs) d),
  )
  | inr c ↦ (
    lost,
    λ p. let was = h p in let more = total-append p b.emitting ((r ∷ rs) ∷ []) in ground arith,
    ground arith,
  )
]
IsAccounted-step sizes (send i) b n (lost, h, d) e =
    elim (Option-cases (next_record i b.emitting)) [
      | inl f ↦ absurd (ground arith)
      | inr ((r, rest), f) ↦ elim (Bool-cases (ltb (length b.queue) sizes.capacity)) [
        | inl c ↦ (
          lost,
          λ p.
              let was = h p in
              let taken = total-next_record p i b.emitting f in
              let more = count-append p b.queue (r ∷ []) in ground arith,
          ground arith,
        )
        | inr c ↦ (
          lost ++ r ∷ [],
          λ p.
              let was = h p in
              let taken = total-next_record p i b.emitting f in
              let more = count-append p lost (r ∷ []) in ground arith,
          ground (arith, lose b.dropped lost (r ∷ []) d),
        )
      ]
    ]
IsAccounted-step sizes close b n {b'} w e = keeps b b' n (λ p. ground arith) (ground arith) w
IsAccounted-step sizes receive b n {b'} w e =
    let (kept, same) = on_receive-held sizes b.queue b.delivery b refl e in keeps b b' n kept same w
IsAccounted-step sizes tick b n {b'} w e = keeps b b' n (λ p. ground arith) (ground arith) w
IsAccounted-step sizes see_closed b n {b'} w e = keeps b b' n (λ p. ground arith) (ground arith) w
IsAccounted-step sizes drained b n {b'} w e = keeps b b' n (λ p. ground arith) (ground arith) w
IsAccounted-step sizes stop b n {b'} w e = keeps b b' n (λ p. ground arith) (ground arith) w
IsAccounted-step sizes (answer true) b n {b'} w e =
    keeps b b' n (λ p. ground (arith, total-append p b.delivered (b.batch ∷ []))) (ground arith) w
IsAccounted-step sizes (answer false) b n {b'} w e =
    recount b' n (λ p. n p + 0) (λ p. omega arith) (on_answer-IsAccounted sizes b.delivery b n w e)
IsAccounted-step sizes wake b n {b'} w e = keeps b b' n (λ p. ground arith) (ground arith) w
IsAccounted-step sizes abandon b n {b'} w e =
    recount b' n (λ p. n p + 0) (λ p. omega arith) (on_abandon-IsAccounted b.delivery b n w e)

IsAccounted-run_events :
    (sizes : Sizes) (es : List Event) (b : Buffer) (n : (Record → Bool) → ℕ) {b' : Buffer}
    → IsAccounted n b
    → run_events sizes es b ≡ some b'
    → IsAccounted (λ p. n p + given_by p es) b'
unfolding run_events given_by
IsAccounted-run_events sizes [] b n {b'} w e =
    recount b' n (λ p. n p + 0) (λ p. omega arith) (subst (IsAccounted n) (some-injective e) w)
IsAccounted-run_events sizes (ev ∷ es) b n {b'} w e = elim (Option-cases (step sizes ev b)) [
  | inl f ↦ absurd (ground arith)
  | inr (mid, f) ↦
      recount b' (λ p. n p + given p ev + given_by p es) (λ p. n p + (given p ev + given_by p es))
        (λ p. omega arith)
        (IsAccounted-run_events sizes es mid (λ p. n p + given p ev)
          (IsAccounted-step sizes ev b n w f) (rw (f, run_events) at e))
]

-- However the goroutines interleave, as long as fewer than 2^64 records were given to `Emit`: there
-- are lost records, of which the counter is the number, such that for every property of records, the
-- given records that have it are as many as those that have it among the delivered ones, the batch,
-- the queue, what calls have still to send, and the lost ones, together. So each given record is in
-- one of these places as it was given, and as often as it was given.
pub run_events-accounts :
    (sizes : Sizes) (es : List Event) (b : Buffer)
    → run_events sizes es new_buffer ≡ some b
    → given_by each es < 2 ^ 64
    → (lost : List Record) × (b.dropped ≡ length lost)
      × ((p : Record → Bool)
          → total p b.delivered
              + count p b.batch
              + count p b.queue
              + total p b.emitting
              + count p lost
            ≡ given_by p es)
unfolding held total count
run_events-accounts sizes es b e bound =
    let start : IsAccounted (λ p. 0) new_buffer = ([], λ p. refl, refl) in
    let (lost, sum, counted) : IsAccounted (λ p. 0 + given_by p es) b =
      IsAccounted-run_events sizes es new_buffer (λ p. 0) start e in
    (
      lost,
      (let all_lost = sum each in let long = count-each lost in omega arith),
      λ p. let s = sum p in omega arith,
    )
