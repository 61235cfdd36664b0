-- ===== src/Tests/EnforceTests.antt =====
-- pkg/patch and pkg/enforce.
use mathlib.Core.List.{[], ◌∷◌}
use nit.Base.{
  ◌≡◌, ◌⊎◌, ◌≢◌, ◌↔◌, inl, inr, refl, str_discrete, value, value_lem, true, some, none, text,
  GoString, ok, err, All, IsOk,
}
use nit.Policy.Engine.{evaluate}
use nit.Patch.Change.{Change}
use nit.Patch.Parse.{ChangeSet, parse, change_of}
use nit.Patch.Render.{render}
use nit.Patch.RoundTrip.{IsNumberedFrom, IsParseOf, parse-IsParseOf, render-parse}
use nit.Enforce.Pass.{reject, strip, Options, Outcome, push, pull, needs_of, validate}
use nit.Enforce.Outcome.{AllOrNothing, ErrorTable, push-AllOrNothing, push-error}
use nit.Tests.Samples.{
  sample_globs, sample_gitdiff, sample_patch, modified, policy, as_alice, no_guards,
}

abbrev first : Change
first = unfold change_of in change_of 0 (text "diff --git a/a b/a\n+1\n") modified

abbrev second : Change
second = unfold change_of in change_of 1 (text "diff --git a/a b/a\n-2") modified

abbrev sample_set : ChangeSet
sample_set = record {
  preamble = text "From x\n";
  changes = first ∷ second ∷ [];
  raw = sample_patch;
}

sample_parses : parse sample_patch ≡ ok sample_set
unfolding parse nit.Base.has_prefix
sample_parses = refl

parse-IsParseOf_example : IsParseOf sample_patch sample_set
parse-IsParseOf_example = parse-IsParseOf sample_patch sample_set sample_parses

render-parse_example : render sample_set (λ c. true) ≡ sample_patch
render-parse_example = render-parse sample_patch sample_set sample_parses

sample_numbered : IsNumberedFrom 0 sample_set.changes
sample_numbered = parse-IsParseOf_example.numbered

abbrev options : Options
options = record {
  engine = some (evaluate policy);
  repo = text "api";
  ref = text "refs/heads/main";
  subject = as_alice;
  guards = no_guards;
}

abbrev nobody : Options
nobody = record options { subject = record as_alice { user_id = [] } }

options_valid : IsOk (validate options)
unfolding validate str_discrete
options_valid = tt

pushes : IsOk (push sample_set options reject)
pushes = (push-error sample_set options reject).4.1 (options_valid, inl refl)

strips : IsOk (push sample_set options strip)
strips = (push-error sample_set options strip).4.1 (options_valid, inr (inl refl))

pulls : IsOk (pull sample_set options)
unfolding pull str_discrete
pulls = tt

abbrev pushed : Outcome
pushed = value (push sample_set options reject) pushes

abbrev stripped : Outcome
stripped = value (push sample_set options strip) strips

abbrev pulled : Outcome
pulled = value (pull sample_set options) pulls

push-error_example : ErrorTable (push sample_set nobody reject) nobody reject
push-error_example = push-error sample_set nobody reject

push-AllOrNothing_example :
    AllOrNothing (needs_of no_guards) options sample_set (evaluate policy) pushed
push-AllOrNothing_example =
    push-AllOrNothing sample_set options (evaluate policy) reject pushed sample_numbered refl
      (inl refl) (value_lem _ pushes)
