-- ===== src/Tests/PolicyTests.antt =====
-- pkg/policy.
use mathlib.Core.List.{List, [], ◌∷◌, map}
use nit.Base.{
  ◌≡◌, ◌↔◌, refl, true, text, GoString, ok, err, str_discrete, has_prefix, contains, split_from,
  ends_with, drop_last, lookup,
}
use nit.Policy.Pattern.{parse_pattern, matches, dot_segment}
use nit.Policy.Rule.{
  Action, read, action_discrete, has_action, matches_subject, subject_matches, matches_ref,
  first_match,
}
use nit.Policy.Decision.{allowed_by_rule, denied_by_rule}
use nit.Policy.Engine.{Request, evaluate, scan, consider, applying, ask}
use nit.Policy.Engine.Cache.{new_caching_engine, answers, answers-new_caching_engine}
use nit.Policy.Engine.Outcome.{MayProceed, HasReason, evaluate-allowed_iff, evaluate-reason_iff}
use nit.Tests.Samples.{sample_globs, policy, everywhere, no_secrets, asks, secrets}

parse_subtree : parse_pattern (text "secrets/") ≡ ok secrets
unfolding parse_pattern str_discrete has_prefix contains split_from ends_with drop_last
parse_subtree = refl

parse_climbing : parse_pattern (text "a/../b") ≡ err (dot_segment (text "a/../b"))
unfolding parse_pattern str_discrete has_prefix contains split_from
parse_climbing = refl

abbrev read_main : Request
read_main = asks (text "main.go") read

abbrev read_key : Request
read_key = asks (text "secrets/key") read

reads_main : (evaluate policy read_main).reason ≡ allowed_by_rule
unfolding evaluate scan consider applying has_action action_discrete matches_subject subject_matches
    matches_ref first_match matches has_prefix drop_last str_discrete lookup
reads_main = refl

cannot_read_key : (evaluate policy read_key).rule_id ≡ text "r2"
unfolding evaluate scan consider applying has_action action_discrete matches_subject subject_matches
    matches_ref first_match matches has_prefix drop_last str_discrete lookup
cannot_read_key = refl

evaluate-allowed_iff_example :
    ((evaluate policy read_main).allowed ≡ true) ↔ MayProceed policy read_main
evaluate-allowed_iff_example = evaluate-allowed_iff policy read_main

evaluate-reason_iff_example :
    ((evaluate policy read_key).reason ≡ denied_by_rule) ↔ HasReason policy read_key denied_by_rule
evaluate-reason_iff_example = evaluate-reason_iff policy read_key denied_by_rule

-- A rule is reported by the first of its patterns that matched, though a later one is more specific.
names_first :
    (evaluate
      (record policy {
        rules = (text "api", record no_secrets { paths = everywhere ∷ secrets ∷ [] } ∷ []) ∷ [];
      })
      read_key).pattern
    ≡ text "**"
unfolding evaluate scan consider applying has_action action_discrete matches_subject subject_matches
    matches_ref first_match matches has_prefix drop_last str_discrete lookup
names_first = refl

abbrev questions : List (GoString × Action)
questions = (text "main.go", read) ∷ (text "secrets/key", read) ∷ (text "main.go", read) ∷ []

answers-new_caching_engine_example :
    answers (new_caching_engine (evaluate policy) read_main) questions
    ≡ map (λ k. evaluate policy (ask read_main k.0 k.1)) questions
answers-new_caching_engine_example =
    answers-new_caching_engine (evaluate policy) read_main questions
