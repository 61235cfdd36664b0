-- ===== src/Policy/Rules/Reading.antt =====
-- Who may write may read: what the check of compileRules means for decisions.
use mathlib.Core.List.{List, [], ◌∷◌}
use mathlib.Core.Option
use nit.Base.{
  ◌≡◌, ◌≢◌, true, All, All_of_mem, Any-of_mem, mem_of_Any, arith, str_discrete, lookup, some, ok,
}
use nit.Policy.Identity.{RepoId, UserId, GroupId, User, Group, Repository}
use nit.Policy.Pattern.{Doublestar}
use nit.Policy.Rule.{Rule, read, allow}
use nit.Policy.Decision.{no_matching_rule}
use nit.Policy.Engine.{Policy, Request, rules_of, evaluate}
use nit.Policy.Engine.Outcome.{Grants, evaluate-allowed_iff, evaluate-reason_iff}
use nit.Policy.Rules.{compile_rules}
use nit.Policy.Rules.Valid.{IsValid, Writes, compile_rules-IsValid}

rules_of-IsValid :
    (repo : RepoId) (rules : List (RepoId × List Rule))
    → All (λ entry. All IsValid entry.1) rules
    → All IsValid (Option.get_or (lookup str_discrete repo rules) [])
unfolding lookup
rules_of-IsValid repo [] h = tt
rules_of-IsValid repo ((r, rs) ∷ rest) (here, later) =
    elim (str_discrete r repo)
      as (λ d.
        All IsValid
          (Option.get_or (elim d [ yes _ ↦ some rs | no _ ↦ lookup str_discrete repo rest ]) [])) [
            | yes e ↦ here
            | no ne ↦ rules_of-IsValid repo rest later
          ]

-- The same request for reading.
abbrev pub to_read : Request → Request
to_read req = record req { action = read }

module _ ⦃ds : Doublestar⦄ where
  Grants-to_read :
      (req : Request) (r : Rule)
      → Writes req.action
      → IsValid r
      → Grants req r
      → Grants (to_read req) r
  Grants-to_read req r w valid (applies, permits) =
      let (a, m, same) = mem_of_Any (λ a. a ≡ req.action) r.actions applies.action in
      let allows : r.effect ≡ allow = ground (arith, valid.effect) in
      (
        record {
          action = valid.reads allows (Any-of_mem Writes m (rw same w));
          subject = applies.subject;
          not_exempt = applies.not_exempt;
          ref = applies.ref;
          path = applies.path;
        },
        permits,
      )

  -- Under a policy whose rules were compiled without an error, a subject that may write, create or
  -- delete a path is never refused to read it for want of a rule: a rule that grants reading applies,
  -- so that reading is allowed unless a rule denies it.
  pub evaluate-reading :
      (users : List (UserId × User)) (groups : List (GroupId × Group))
      (repos : List (RepoId × Repository)) (spec : List (RepoId × List Rule)) (p : Policy)
      (req : Request)
      → compile_rules users groups repos spec ≡ ok p.rules
      → Writes req.action
      → (evaluate p req).allowed ≡ true
      → (evaluate p (to_read req)).reason ≢ no_matching_rule
  evaluate-reading users groups repos spec p req compiled w allowed missing =
      let (_, _, grants, _) = (evaluate-allowed_iff p req).0 allowed in
      let (_, _, _, nothing) = (evaluate-reason_iff p (to_read req) no_matching_rule).0 missing in
      let (r, m, g) = mem_of_Any (Grants req) (rules_of p req.repo) grants in
      let valid = All_of_mem IsValid m (
        rules_of-IsValid req.repo p.rules
          (compile_rules-IsValid users groups repos spec p.rules compiled)) in
      nothing (Any-of_mem (Grants (to_read req)) m (Grants-to_read req r w valid g))
