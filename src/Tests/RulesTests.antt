-- ===== src/Tests/RulesTests.antt =====
-- pkg/policy/policy.go, the rules of a bundle.
use mathlib.Core.List.{List, [], ◌∷◌}
use nit.Base.{
  ◌≡◌, ◌≢◌, refl, inl, true, text, ok, err, str_discrete, has_prefix, drop_last, lookup, digits,
}
use nit.Policy.Identity.{Group, GroupId}
use nit.Policy.Rule.{
  write, action_discrete, action_valid, effect_valid, subject_type_valid, has_action,
  matches_subject, subject_matches, matches_ref, first_match,
}
use nit.Policy.Pattern.{matches}
use nit.Policy.Decision.{no_matching_rule}
use nit.Policy.Engine.{Request, evaluate, scan, consider, applying}
use nit.Policy.Rules.{
  compile_rules, compile_list, validate_rule, check_excepts, check_actions, check_rule_subject,
  writes_blind, named_rule,
}
use nit.Policy.Rules.Reading.{to_read, evaluate-reading}
use nit.Tests.Samples.{sample_globs, policy, asks, writers}

abbrev groups : List (GroupId × Group)
groups =
    (text "ops", record { id = text "ops"; description = []; members = []; includes = [] }) ∷ []

compiles : compile_rules policy.users groups policy.repos policy.rules ≡ ok policy.rules
unfolding compile_rules compile_list validate_rule check_excepts check_actions check_rule_subject
    action_discrete action_valid effect_valid subject_type_valid str_discrete lookup
compiles = refl

refuses_blind_writes :
    validate_rule (record writers { actions = write ∷ [] }) ≡ err (writes_blind write)
unfolding validate_rule check_excepts check_actions action_discrete action_valid effect_valid
    subject_type_valid str_discrete
refuses_blind_writes = refl

numbers_rules : (named_rule (text "api") 12 (record writers { id = [] })).id ≡ text "api#12"
unfolding digits
numbers_rules = refl

abbrev write_main : Request
write_main = asks (text "main.go") write

writes_main : (evaluate policy write_main).allowed ≡ true
unfolding evaluate scan consider applying has_action action_discrete matches_subject subject_matches
    matches_ref first_match matches has_prefix drop_last str_discrete lookup
writes_main = refl

evaluate-reading_example : (evaluate policy (to_read write_main)).reason ≢ no_matching_rule
evaluate-reading_example =
    evaluate-reading policy.users groups policy.repos policy.rules policy write_main compiles
      (inl refl) writes_main
