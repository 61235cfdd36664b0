-- ===== src/Policy/Engine/Applies.antt =====
-- When a rule reaches a request, stated without the code's tests.
use mathlib.Core.List.{List, [], ◌∷◌}
use nit.Base.{◌≡◌, ◌≢◌, ◌↔◌, ◌⊎◌, true, false, none, GoString, ◌==◌, All, Any, any, arith, any_iff}
use nit.Policy.Identity.{Subject}
use nit.Policy.Pattern.{Doublestar, Pattern, matches}
use nit.Policy.Rule.{
  Action, action_eq, SubjectType, user, group, any_subject, other_type, RuleSubject, Rule,
  subject_matches, matches_subject, has_action, matches_ref, first_match,
}
use nit.Policy.Engine.{Request, applying}

-- The subject that a selector of this type and id stands for.
abbrev pub SelectsBy : SubjectType → GoString → Subject → Type 0
SelectsBy any_subject id s = Unit
SelectsBy user id s = id ≡ s.user_id
SelectsBy group id s = Any (λ g. g ≡ id) s.groups
SelectsBy (other_type t) id s = ⊥

abbrev pub Selects : RuleSubject → Subject → Type 0
Selects rs s = SelectsBy rs.type rs.id s

Any-== :
    (xs : List GoString) (id : GoString) → (any (λ g. g == id) xs ≡ true) ↔ Any (λ g. g ≡ id) xs
Any-== [] id = ground arith
Any-== (x ∷ xs) id = ground (arith, Any-== xs id)

pub subject_matches_by_iff :
    (type : SubjectType) (id : GoString) (s : Subject)
    → (subject_matches (record { type = type; id = id }) s ≡ true) ↔ SelectsBy type id s
unfolding subject_matches
subject_matches_by_iff any_subject id s = ground arith
subject_matches_by_iff user id s = ground arith
subject_matches_by_iff group id s = Any-== s.groups id
subject_matches_by_iff (other_type t) id s = ground arith

pub subject_matches_iff :
    (rs : RuleSubject) (s : Subject) → (subject_matches rs s ≡ true) ↔ Selects rs s
subject_matches_iff rs s = subject_matches_by_iff rs.type rs.id s

except_iff :
    (xs : List RuleSubject) (s : Subject)
    → (any (λ ex. subject_matches ex s) xs ≡ false) ↔ All (λ ex. ¬ Selects ex s) xs
except_iff [] s = ground arith
except_iff (x ∷ xs) s = ground (arith, subject_matches_iff x s, except_iff xs s)

has_action_iff : (r : Rule) (a : Action) → (has_action r a ≡ true) ↔ Any (λ ra. ra ≡ a) r.actions
unfolding has_action
has_action_iff r a = go r.actions
  where
    go : (xs : List Action) → (any (λ ra. action_eq ra a) xs ≡ true) ↔ Any (λ ra. ra ≡ a) xs
    go [] = ground arith
    go (x ∷ xs) = ground (arith, go xs)

module _ ⦃ds : Doublestar⦄ where
  abbrev pub Covers : Pattern → GoString → Type 0
  Covers p path = matches p path ≡ true

  -- The rule covers the action, its subject selects the requester and no exemption does, it is not
  -- restricted to other refs, and one of its patterns covers the path.
  pub record Applies (r : Rule) (req : Request) : Type 0 where
    pub action : Any (λ a. a ≡ req.action) r.actions
    pub subject : Selects r.subject req.subject
    pub not_exempt : All (λ ex. ¬ Selects ex req.subject) r.except
    pub ref : (r.refs ≡ []) ⊎ ((req.ref ≢ []) × Any (λ p. Covers p req.ref) r.refs)
    pub path : Any (λ p. Covers p req.path) r.paths

  matches_subject_iff :
      (r : Rule) (s : Subject)
      → (matches_subject r s ≡ true) ↔ (Selects r.subject s × All (λ ex. ¬ Selects ex s) r.except)
  unfolding matches_subject
  matches_subject_iff r s = ground (arith, subject_matches_iff r.subject s, except_iff r.except s)

  matches_ref_iff :
      (r : Rule) (ref : GoString)
      → (matches_ref r ref ≡ true) ↔ ((r.refs ≡ []) ⊎ ((ref ≢ []) × Any (λ p. Covers p ref) r.refs))
  unfolding matches_ref
  matches_ref_iff r ref = ground (arith, any_iff (λ p. matches p ref) r.refs)

  first_match_iff :
      (ps : List Pattern) (path : GoString)
      → (first_match ps path ≢ none) ↔ Any (λ p. Covers p path) ps
  unfolding first_match
  first_match_iff [] path = ground arith
  first_match_iff (p ∷ ps) path = ground (arith, first_match_iff ps path)

  -- The four tests of the loop find a pattern exactly when the rule applies.
  pub applying_iff : (r : Rule) (req : Request) → (applying r req ≢ none) ↔ Applies r req
  unfolding applying
  applying_iff r req = ground (
    arith,
    has_action_iff r req.action,
    matches_subject_iff r req.subject,
    matches_ref_iff r req.ref,
    first_match_iff r.paths req.path,
  )
