-- ===== src/Policy/Engine.antt =====
-- pkg/policy/engine.go: evaluation of a request against a compiled policy, and the per-operation
-- cache of decisions. `Policy` is the compiled bundle of pkg/policy/policy.go, its maps as
-- association lists.
pub mod Applies
pub mod Outcome
pub mod Explain
pub mod Named
pub mod Cache
use mathlib.Core.List.{List, [], ◌∷◌}
use mathlib.Core.Bool.{Bool, true, false, not}
use mathlib.Core.Option.{Option, none, some}
use mathlib.Core.Option
use nit.Base.{GoString, str_discrete, lookup, has_key, insert, ltb, if◌then◌else◌}
use nit.Policy.Identity.{TenantId, UserId, GroupId, RepoId, User, Group, Repository, Subject}
use nit.Policy.Pattern.{Doublestar, Pattern, specificity}
use nit.Policy.Rule.{
  Action, action_discrete, Effect, allow, deny, other_effect, is_deny, Rule, matches_subject,
  has_action, matches_ref, matches_path,
}
use nit.Policy.Decision.{
  Decision, denied, allowed_by_rule, denied_by_rule, no_matching_rule, unknown_repository,
  user_disabled, other_reason,
}

pub record Policy : Type 0 where
  pub tenant : TenantId
  pub version : GoString
  pub users : List (UserId × User)
  pub groups : List (GroupId × Group)
  pub repos : List (RepoId × Repository)
  pub rules : List (RepoId × List Rule)
  pub memberships : List (UserId × List GroupId)

pub record Request : Type 0 where
  pub repo : RepoId
  pub ref : GoString
  pub subject : Subject
  pub path : GoString
  pub action : Action

-- `p.rules[repo]`: a missing key reads as the nil slice.
abbrev pub rules_of : Policy → RepoId → List Rule
rules_of p repo = Option.get_or (lookup str_discrete repo p.rules) []

-- `u, ok := p.users[id]; ok && u.Disabled`.
abbrev pub is_disabled : Policy → UserId → Bool
is_disabled p id = elim (lookup str_discrete id p.users) [ none ↦ false | some u ↦ u.disabled ]

-- The rule found so far for one effect, with the pattern that matched; `none` is the nil pointer.
abbrev pub Best : Type 0
Best = Option (Rule × Pattern)

unfoldable pub better : Best → Rule → Pattern → Best
better none r pat = some (r, pat)
better (some (r', pat')) r pat =
    if ltb (specificity pat') (specificity pat) then some (r, pat) else some (r', pat')

-- The last `switch`.
unfoldable pub conclude : GoString → Best → Best → Decision
conclude version (some (r, pat)) best_allow = record {
  allowed = false;
  effect = deny;
  reason = denied_by_rule;
  rule_id = r.id;
  pattern = pat.raw;
  description = r.description;
  policy_version = version;
}
conclude version none (some (r, pat)) = record {
  allowed = true;
  effect = allow;
  reason = allowed_by_rule;
  rule_id = r.id;
  pattern = pat.raw;
  description = r.description;
  policy_version = version;
}
conclude version none none = denied no_matching_rule version

module _ ⦃ds : Doublestar⦄ where
  -- The four `continue` tests of the loop: the pattern of a rule that applies.
  unfoldable pub applying : Rule → Request → Option Pattern
  applying r req =
      if not (has_action r req.action)
      then none
      else if not (matches_subject r req.subject)
      then none
      else if not (matches_ref r req.ref)
      then none
      else matches_path r req.path

  -- One round of the loop.
  unfoldable pub consider : Rule → Option Pattern → Best × Best → Best × Best
  unfolding better
  consider r none best = best
  consider r (some pat) (best_deny, best_allow) =
      if is_deny r.effect
      then (better best_deny r pat, best_allow)
      else (best_deny, better best_allow r pat)

  unfoldable pub scan : List Rule → Request → Best × Best → Best × Best
  scan [] req best = best
  scan (r ∷ rs) req best = scan rs req (consider r (applying r req) best)

  unfoldable pub evaluate : Policy → Request → Decision
  unfolding conclude
  evaluate p req =
      if not (has_key str_discrete req.repo p.repos)
      then denied unknown_repository p.version
      else if is_disabled p req.subject.user_id
      then denied user_disabled p.version
      else let (best_deny, best_allow) = scan (rules_of p req.repo) req (none, none) in
        conclude p.version best_deny best_allow

-- The interface `Engine`, as its only method.
abbrev pub Engine : Type 0
Engine = Request → Decision

abbrev pub ask : Request → GoString → Action → Request
ask base path action = record base { path = path; action = action }

-- The first decision that refuses, over the actions of one path.
unfoldable pub first_refusal_on : Engine → Request → GoString → List Action → Option Decision
first_refusal_on e base path [] = none
first_refusal_on e base path (a ∷ actions) =
    let rest = first_refusal_on e base path actions in
    let d = e (ask base path a) in if not d.allowed then some d else rest

unfoldable pub first_refusal : Engine → Request → List GoString → List Action → Option Decision
unfolding first_refusal_on
first_refusal e base [] actions = none
first_refusal e base (path ∷ paths) actions =
    let rest = first_refusal e base paths actions in
    elim (first_refusal_on e base path actions) [ some d ↦ some d | none ↦ rest ]

-- `Decision{Allowed: true}`: its other fields are the zero values.
abbrev pub all_allowed : Decision
all_allowed = record {
  allowed = true;
  effect = other_effect [];
  reason = other_reason [];
  rule_id = [];
  pattern = [];
  description = [];
  policy_version = [];
}

unfoldable pub allows_all : Engine → Request → List GoString → List Action → Bool × Decision
unfolding first_refusal
allows_all e base paths actions = elim (first_refusal e base paths actions) [
  | some d ↦ (false, d)
  | none ↦ (true, all_allowed)
]
