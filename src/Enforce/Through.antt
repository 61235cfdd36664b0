-- ===== src/Enforce/Through.antt =====
-- What a push that is not rejected carries, in either mode.
use nit.Base.{◌≡◌, ◌≢◌, sym, ap, ◌∙◌, ◌⊎◌, true, false, some, All, inl, inr, ok}
use nit.Policy.Pattern.{Doublestar}
use nit.Policy.Engine.{Engine}
use nit.Patch.Parse.{ChangeSet}
use nit.Patch.Render.{render}
use nit.Patch.RoundTrip.{IsNumberedFrom}
use nit.Enforce.Pass.{Mode, reject, strip, Options, Outcome, request, needs_of, push}
use nit.Enforce.Direct.{is_authorized}
use nit.Enforce.Outcome.{AllOrNothing, render_congr, push-AllOrNothing, push-strip}

true≢false : true ≢ false
true≢false e = cc

module _ ⦃ds : Doublestar⦄ where
  -- A push that is not rejected carries the sections that are authorized, and in the default mode
  -- these are all.
  push_through :
      (set : ChangeSet) (opts : Options) (engine : Engine) (r : Outcome)
      → AllOrNothing (needs_of opts.guards) opts set engine r
      → r.rejected ≡ false
      → (r.patch ≡ render set (is_authorized engine (request opts) (needs_of opts.guards)))
        × All (λ c. is_authorized engine (request opts) (needs_of opts.guards) c ≡ true) set.changes
  push_through set opts engine r (inl (through, every, patch)) e =
      (patch ∙ sym (render_congr _ (λ c. true) set every), every)
  push_through set opts engine r (inr (rejected, some_not, patch)) e =
      absurd (true≢false (sym rejected ∙ e))

  pub push_not_rejected :
      (set : ChangeSet) (opts : Options) (engine : Engine) (mode : Mode) (r : Outcome)
      → IsNumberedFrom 0 set.changes
      → opts.engine ≡ some engine
      → (mode ≡ reject) ⊎ (mode ≡ strip)
      → push set opts mode ≡ ok r
      → r.rejected ≡ false
      → let authorized = is_authorized engine (request opts) (needs_of opts.guards) in
        (r.patch ≡ render set authorized)
        × (mode ≡ reject → All (λ c. authorized c ≡ true) set.changes)
  push_not_rejected set opts engine mode r numbered configured (inl m) e through =
      let (patch, every) =
        push_through set opts engine r
          (push-AllOrNothing set opts engine mode r numbered configured (inl m) e) through in
      (patch, λ _. every)
  push_not_rejected set opts engine mode r numbered configured (inr m) e through = (
    (push-strip set opts engine r numbered configured (ap (push set opts) (sym m) ∙ e)).1,
    λ by_default. absurd (let k = sym m ∙ by_default in cc),
  )
