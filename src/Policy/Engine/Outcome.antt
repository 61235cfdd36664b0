-- ===== src/Policy/Engine/Outcome.antt =====
-- What `evaluate` answers: deny wins, closed by default, whatever the order of the rules.
use mathlib.Core.List.{List, [], ◌∷◌}
use nit.Base.{
  ◌≡◌, ◌≢◌, ◌↔◌, ◌⊎◌, true, none, some, Any, SameMembers, Any-of_SameMembers, arith, str_discrete,
  lookup,
}
use nit.Policy.Identity.{UserId, RepoId, User}
use nit.Policy.Pattern.{Doublestar}
use nit.Policy.Rule.{Rule, deny}
use nit.Policy.Decision.{
  Reason, allowed_by_rule, denied_by_rule, no_matching_rule, unknown_repository, user_disabled,
  other_reason,
}
use nit.Policy.Engine.{Policy, Request, Best, consider, scan, applying, rules_of, evaluate}
use nit.Policy.Engine.Applies.{Applies, applying_iff}

abbrev pub IsKnown : Policy → RepoId → Type 0
IsKnown p repo = lookup str_discrete repo p.repos ≢ none

abbrev pub IsDisabled : Policy → UserId → Type 0
IsDisabled p id = (u : User) × (lookup str_discrete id p.users ≡ some u) × (u.disabled ≡ true)

module _ ⦃ds : Doublestar⦄ where
  abbrev pub Denies : Request → Rule → Type 0
  Denies req r = Applies r req × (r.effect ≡ deny)

  abbrev pub Grants : Request → Rule → Type 0
  Grants req r = Applies r req × (r.effect ≢ deny)

  consider_deny_iff :
      (r : Rule) (req : Request) (best : Best × Best)
      → ((consider r (applying r req) best).0 ≢ none) ↔ ((best.0 ≢ none) ⊎ Denies req r)
  unfolding consider
  consider_deny_iff r req (d, a) = ground (arith, applying_iff r req)

  consider_allow_iff :
      (r : Rule) (req : Request) (best : Best × Best)
      → ((consider r (applying r req) best).1 ≢ none) ↔ ((best.1 ≢ none) ⊎ Grants req r)
  unfolding consider
  consider_allow_iff r req (d, a) = ground (arith, applying_iff r req)

  scan_deny_iff :
      (rs : List Rule) (req : Request) (best : Best × Best)
      → ((scan rs req best).0 ≢ none) ↔ ((best.0 ≢ none) ⊎ Any (Denies req) rs)
  unfolding scan
  scan_deny_iff [] req best = ground arith
  scan_deny_iff (r ∷ rs) req best =
      let best' = consider r (applying r req) best in
      ground (arith, consider_deny_iff r req best, scan_deny_iff rs req best')

  scan_allow_iff :
      (rs : List Rule) (req : Request) (best : Best × Best)
      → ((scan rs req best).1 ≢ none) ↔ ((best.1 ≢ none) ⊎ Any (Grants req) rs)
  unfolding scan
  scan_allow_iff [] req best = ground arith
  scan_allow_iff (r ∷ rs) req best =
      let best' = consider r (applying r req) best in
      ground (arith, consider_allow_iff r req best, scan_allow_iff rs req best')

  abbrev pub MayProceed : Policy → Request → Type 0
  MayProceed p req =
      IsKnown p req.repo
      × (¬ IsDisabled p req.subject.user_id)
      × Any (Grants req) (rules_of p req.repo)
      × (¬ Any (Denies req) (rules_of p req.repo))

  -- A request is allowed exactly when its repository is known, its user is not disabled, some rule
  -- of the repository that does not deny applies to it, and no rule that denies applies to it.
  pub evaluate-allowed_iff :
      (p : Policy) (req : Request) → ((evaluate p req).allowed ≡ true) ↔ MayProceed p req
  unfolding evaluate
  evaluate-allowed_iff p req =
      let rs = rules_of p req.repo in
      ground (arith, scan_deny_iff rs req (none, none), scan_allow_iff rs req (none, none))

  -- When each reason is due.
  abbrev pub HasReason : Policy → Request → Reason → Type 0
  HasReason p req unknown_repository = ¬ IsKnown p req.repo
  HasReason p req user_disabled = IsKnown p req.repo × IsDisabled p req.subject.user_id
  HasReason p req denied_by_rule =
      IsKnown p req.repo
      × (¬ IsDisabled p req.subject.user_id)
      × Any (Denies req) (rules_of p req.repo)
  HasReason p req allowed_by_rule = MayProceed p req
  HasReason p req no_matching_rule =
      IsKnown p req.repo
      × (¬ IsDisabled p req.subject.user_id)
      × (¬ Any (Denies req) (rules_of p req.repo))
      × (¬ Any (Grants req) (rules_of p req.repo))
  HasReason p req (other_reason s) = ⊥

  -- The reason of a decision tells why: the repository is unknown; or else the user is disabled; or
  -- else a rule that denies applies; or else a rule that grants applies; or else nothing applies. No
  -- other reason is given.
  pub evaluate-reason_iff :
      (p : Policy) (req : Request) (reason : Reason)
      → ((evaluate p req).reason ≡ reason) ↔ HasReason p req reason
  unfolding evaluate
  evaluate-reason_iff p req unknown_repository = ground (
    arith,
    scan_deny_iff (rules_of p req.repo) req (none, none),
    scan_allow_iff (rules_of p req.repo) req (none, none),
  )
  evaluate-reason_iff p req _ = ground (
    arith,
    scan_deny_iff (rules_of p req.repo) req (none, none),
    scan_allow_iff (rules_of p req.repo) req (none, none),
  )

  -- The answer and its reason depend on the set of the repository's rules only: not on their order,
  -- nor on how often one is listed.
  pub evaluate_of_SameMembers :
      (p q : Policy) (req : Request)
      → p.repos ≡ q.repos
      → p.users ≡ q.users
      → SameMembers (rules_of p req.repo) (rules_of q req.repo)
      → ((evaluate p req).allowed ≡ (evaluate q req).allowed)
        × ((evaluate p req).reason ≡ (evaluate q req).reason)
  unfolding evaluate
  evaluate_of_SameMembers p q req repos users same =
      let rs = rules_of p req.repo in
      let rs' = rules_of q req.repo in
      ground (
        arith,
        scan_deny_iff rs req (none, none),
        scan_allow_iff rs req (none, none),
        scan_deny_iff rs' req (none, none),
        scan_allow_iff rs' req (none, none),
        Any-of_SameMembers (Denies req) rs rs' same,
        Any-of_SameMembers (Grants req) rs rs' same,
      )
