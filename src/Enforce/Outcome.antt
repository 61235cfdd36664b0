-- ===== src/Enforce/Outcome.antt =====
-- What `Push` and `Pull` let through.
use mathlib.Core.List.{List, []}
use mathlib.Core.Path.{subst, fun_ext}
use mathlib.Core.Option.{some-injective}
use nit.Base.{
  ◌≡◌, ◌≢◌, refl, sym, ap, ◌∙◌, ◌↔◌, ◌⊎◌, Bool, true, false, not, ◌&&◌, none, some, GoString, all,
  keep, keep_none, all-map, IsOk, keep_congr, keep-not_of_All, is_empty_iff, All, is_empty, arith,
  Bool-cases, inl, inr, Result, ok, err, >>=-eq-ok, ok-injective,
}
use nit.Policy.Pattern.{Doublestar}
use nit.Policy.Rule.{read}
use nit.Policy.Engine.{Engine, ask}
use nit.Patch.Change.{Change, paths}
use nit.Patch.Parse.{ChangeSet}
use nit.Patch.Render.{render}
use nit.Patch.RoundTrip.{IsNumberedFrom}
use nit.Enforce.Check.{Requirement, plain}
use nit.Enforce.Pass.{
  Mode, reject, strip, unset, other_mode, EnforceError, no_engine, no_repository, no_subject,
  unknown_mode, Options, Outcome, request, validate, resolve_mode, is_reject, is_kept, finish,
  settle, readings, needs_of, pull, push,
}
use nit.Enforce.Direct.{is_granted, is_authorized}
use nit.Enforce.Verdicts.{render-is_kept, IsPassOf, validate-ok, judged, judged-IsAfter}

pub render_congr :
    (p q : Change → Bool) (set : ChangeSet)
    → All (λ c. p c ≡ q c) set.changes
    → render set p ≡ render set q
unfolding render
render_congr p q set h = rw (keep_congr p q set.changes h)

true≢false : true ≢ false
true≢false e = cc

-- Every section is authorized for all that it needs, nothing is rejected and the patch is the whole
-- patch; or some section is not, the operation is rejected and carries no patch.
abbrev pub AllOrNothing :
    (Change → List Requirement) → Options → ChangeSet → Engine → Outcome → Type 0
AllOrNothing needs opts set engine r =
    let authorized = is_authorized engine (request opts) needs in
    ((r.rejected ≡ false)
      × All (λ c. authorized c ≡ true) set.changes
      × (r.patch ≡ render set (λ c. true)))
    ⊎ ((r.rejected ≡ true) × (¬ All (λ c. authorized c ≡ true) set.changes) × (r.patch ≡ []))

module _ (needs : Change → List Requirement) (opts : Options) (set : ChangeSet) (engine : Engine)
    (mode : Mode) where
  abbrev authorized : Change → Bool
  authorized = is_authorized engine (request opts) needs

  module _ (configured : opts.engine ≡ some engine) where
    finish-IsPassOf : IsPassOf needs opts set (finish set (judged needs opts set engine mode))
    unfolding finish
    finish-IsPassOf =
        let a = judged-IsAfter needs opts set engine mode in
        record {
          engine = engine;
          configured = configured;
          verdicts = a.verdicts;
          kept = a.kept;
          dropped = a.dropped;
        }

    settle-IsPassOf : IsPassOf needs opts set (settle set (judged needs opts set engine mode))
    unfolding settle
    settle-IsPassOf =
        let r = judged needs opts set engine mode in
        let a = judged-IsAfter needs opts set engine mode in
        elim (Bool-cases (is_reject r.mode && not (is_empty r.dropped))) [
          | inl refused ↦ rw refused (record {
            engine = engine;
            configured = configured;
            verdicts = a.verdicts;
            kept = a.kept;
            dropped = a.dropped;
          })
          | inr through ↦ rw through finish-IsPassOf
        ]

  module _ (numbered : IsNumberedFrom 0 set.changes) where
    finish-patch :
        ((finish set (judged needs opts set engine mode)).rejected ≡ false)
        × ((finish set (judged needs opts set engine mode)).patch ≡ render set authorized)
    unfolding finish
    finish-patch =
        let a = judged-IsAfter needs opts set engine mode in
        (
          a.rejected,
          ap (λ l. render set (is_kept l)) a.kept ∙ render-is_kept authorized set numbered,
        )

    settle_filters :
        is_reject mode ≡ false
        → ((settle set (judged needs opts set engine mode)).rejected ≡ false)
          × ((settle set (judged needs opts set engine mode)).patch ≡ render set authorized)
    unfolding settle
    settle_filters h =
        let a = judged-IsAfter needs opts set engine mode in rw (a.mode, h) finish-patch

    settle_rejects :
        is_reject mode ≡ true
        → AllOrNothing needs opts set engine (settle set (judged needs opts set engine mode))
    unfolding settle
    settle_rejects h =
        let a = judged-IsAfter needs opts set engine mode in
        let refused = keep (λ c. not (authorized c)) set.changes in
        elim (Bool-cases (is_empty refused)) [
          | inl nothing ↦
              let every = keep_none authorized set.changes ((is_empty_iff refused).0 nothing) in
              rw (a.mode, h, a.dropped, nothing)
                (inl (
                  finish-patch.0,
                  every,
                  finish-patch.1 ∙ render_congr authorized (λ c. true) set every,
                ))
          | inr something ↦
              rw (a.mode, h, a.dropped, something)
                (inr (
                  refl,
                  λ every. true≢false (
                      sym ((is_empty_iff refused).1 (keep-not_of_All authorized set.changes every))
                      ∙ something),
                  a.patch,
                ))
        ]

-- A pull judges every section on reading each of its paths, and answers each by the engine's own
-- decision; what it keeps and drops are the sections that passed and that did not.
pub pull-IsPassOf :
    (set : ChangeSet) (opts : Options) (r : Outcome)
    → pull set opts ≡ ok r
    → IsPassOf readings opts set r
unfolding pull
pull-IsPassOf set opts r e =
    let (engine, valid, e') = >>=-eq-ok (validate opts) _ e in
    rw (← ok-injective e')
      (finish-IsPassOf readings opts set engine strip (validate-ok opts engine valid).0)

resolve_mode-reject :
    (mode mode' : Mode)
    → (mode ≡ reject) ⊎ (mode ≡ unset)
    → resolve_mode mode ≡ ok mode'
    → is_reject mode' ≡ true
unfolding resolve_mode
resolve_mode-reject mode mode' m e = ground arith

resolve_mode-strip : (mode' : Mode) → resolve_mode strip ≡ ok mode' → is_reject mode' ≡ false
unfolding resolve_mode
resolve_mode-strip mode' e = ground arith

-- The error for each fault, and a result where there is none.
abbrev pub ErrorTable : Result EnforceError Outcome → Options → Mode → Type 0
ErrorTable r opts mode =
    ((r ≡ err no_engine) ↔ (opts.engine ≡ none))
    × ((r ≡ err no_repository) ↔ ((opts.engine ≢ none) × (opts.repo ≡ [])))
    × ((r ≡ err no_subject)
        ↔ ((opts.engine ≢ none) × (opts.repo ≢ []) × (opts.subject.user_id ≡ [])))
    × ((s : GoString) → (r ≡ err (unknown_mode s)) ↔ (IsOk (validate opts) × (mode ≡ other_mode s)))
    × (IsOk r ↔ (IsOk (validate opts) × ((mode ≡ reject) ⊎ ((mode ≡ strip) ⊎ (mode ≡ unset)))))

module _ ⦃ds : Doublestar⦄ where
  -- A push judges every section on every requirement of the change and of the guards, and answers
  -- each by the engine's own decision; what it keeps and drops are the sections that passed and that
  -- did not.
  pub push-IsPassOf :
      (set : ChangeSet) (opts : Options) (mode : Mode) (r : Outcome)
      → push set opts mode ≡ ok r
      → IsPassOf (needs_of opts.guards) opts set r
  unfolding push
  push-IsPassOf set opts mode r e =
      let (engine, valid, e') = >>=-eq-ok (validate opts) _ e in
      let (mode', known, e'') = >>=-eq-ok (resolve_mode mode) _ e' in
      rw (← ok-injective e'') (
        settle-IsPassOf (needs_of opts.guards) opts set engine mode'
          (validate-ok opts engine valid).0)

  push-eq-ok :
      (set : ChangeSet) (opts : Options) (engine : Engine) (mode : Mode) (r : Outcome)
      → opts.engine ≡ some engine
      → push set opts mode ≡ ok r
      → (mode' : Mode) × (resolve_mode mode ≡ ok mode')
        × (r ≡ settle set (judged (needs_of opts.guards) opts set engine mode'))
  unfolding push
  push-eq-ok set opts engine mode r configured e =
      let (engine', valid, e') = >>=-eq-ok (validate opts) _ e in
      let (mode', known, e'') = >>=-eq-ok (resolve_mode mode) _ e' in
      let same =
        some-injective engine' engine (sym (validate-ok opts engine' valid).0 ∙ configured) in
      (
        mode',
        known,
        sym (ok-injective e'')
            ∙ ap (λ en. settle set (judged (needs_of opts.guards) opts set en mode')) same,
      )

  -- A push in the default mode, of a patch whose sections are numbered in order, lands as written or
  -- not at all: either every section is authorized for all that it needs, nothing is rejected and the
  -- patch is the whole patch, or some section is not, the push is rejected and carries no patch.
  pub push-AllOrNothing :
      (set : ChangeSet) (opts : Options) (engine : Engine) (mode : Mode) (r : Outcome)
      → IsNumberedFrom 0 set.changes
      → opts.engine ≡ some engine
      → (mode ≡ reject) ⊎ (mode ≡ unset)
      → push set opts mode ≡ ok r
      → AllOrNothing (needs_of opts.guards) opts set engine r
  push-AllOrNothing set opts engine mode r numbered configured m e =
      let (mode', known, same) = push-eq-ok set opts engine mode r configured e in
      subst (AllOrNothing (needs_of opts.guards) opts set engine) (sym same) (
        settle_rejects (needs_of opts.guards) opts set engine mode' numbered
          (resolve_mode-reject mode mode' m known))

  pub push-strip :
      (set : ChangeSet) (opts : Options) (engine : Engine) (r : Outcome)
      → IsNumberedFrom 0 set.changes
      → opts.engine ≡ some engine
      → push set opts strip ≡ ok r
      → (r.rejected ≡ false)
        × (r.patch ≡ render set (is_authorized engine (request opts) (needs_of opts.guards)))
  push-strip set opts engine r numbered configured e =
      let (mode', known, same) = push-eq-ok set opts engine strip r configured e in
      let (rejected, patch) =
        settle_filters (needs_of opts.guards) opts set engine mode' numbered
          (resolve_mode-strip mode' known) in
      (ap Outcome.rejected same ∙ rejected, ap Outcome.patch same ∙ patch)

  -- Which error `Push` returns: for a missing engine first, then for an empty repository, an empty
  -- user and an unknown mode. In all other cases it returns a result.
  pub push-error :
      (set : ChangeSet) (opts : Options) (mode : Mode) → ErrorTable (push set opts mode) opts mode
  unfolding push
  push-error set opts mode =
      (ground arith, ground arith, ground arith, λ s. ground arith, ground arith)

pub pull-readable :
    (set : ChangeSet) (opts : Options) (engine : Engine) (r : Outcome)
    → IsNumberedFrom 0 set.changes
    → opts.engine ≡ some engine
    → pull set opts ≡ ok r
    → (r.rejected ≡ false)
      × (r.patch
          ≡ render set
              (λ c. all (λ path. (engine (ask (request opts) path read)).allowed) (paths c)))
unfolding pull
pull-readable set opts engine r numbered configured e =
    let (engine', valid, e') = >>=-eq-ok (validate opts) _ e in
    let same =
      some-injective engine' engine (sym (validate-ok opts engine' valid).0 ∙ configured) in
    let (rejected, patch) = finish-patch readings opts set engine strip numbered in
    let result =
      sym (ok-injective e') ∙ ap (λ en. finish set (judged readings opts set en strip)) same in
    (
      ap Outcome.rejected result ∙ rejected,
      ap Outcome.patch result
          ∙ patch
          ∙ ap (render set) (
              fun_ext
                (λ c. all-map (is_granted engine (request opts)) (λ p. plain p read) (paths c))),
    )
