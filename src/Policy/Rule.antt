-- ===== src/Policy/Rule.antt =====
-- pkg/policy/rule.go: actions, effects, subjects of rules, and rules. `Action`, `Effect` and
-- `SubjectType` are string types in the source: each has a constructor for every constant, and one
-- for any other string.
use mathlib.Core.List.{List, [], ◌∷◌}
use mathlib.Core.Bool.{Bool, true, false, not}
use mathlib.Core.Option.{Option, none, some}
use nit.Base.{GoString, ◌==◌, str_discrete, any, is_empty, if◌then◌else◌}
use nit.Policy.Identity.{Subject, in_group}
use nit.Policy.Pattern.{Doublestar, Pattern, matches}

pub data Action : Type 0 where
  read write create delete admin : Action
  other_action : GoString → Action

pub data Effect : Type 0 where
  allow deny : Effect
  other_effect : GoString → Effect

pub data SubjectType : Type 0 where
  user group any_subject : SubjectType
  other_type : GoString → SubjectType

abbrev pub all_actions : List Action
all_actions = read ∷ write ∷ create ∷ delete ∷ admin ∷ []

pub Action-discrete : Discrete Action
Action-discrete = hlevel str_discrete

unfoldable pub action_discrete : Discrete Action
unfolding Action-discrete str_discrete
action_discrete = Action-discrete

abbrev pub action_eq : Action → Action → Bool
action_eq a b = elim (action_discrete a b) [ yes _ ↦ true | no _ ↦ false ]

unfoldable pub action_valid : Action → Bool
action_valid (other_action s) = false
action_valid _ = true

unfoldable pub effect_valid : Effect → Bool
effect_valid (other_effect s) = false
effect_valid _ = true

abbrev pub is_deny : Effect → Bool
is_deny deny = true
is_deny _ = false

abbrev pub is_allow : Effect → Bool
is_allow allow = true
is_allow _ = false

unfoldable pub subject_type_valid : SubjectType → Bool
subject_type_valid (other_type s) = false
subject_type_valid _ = true

abbrev pub is_any : SubjectType → Bool
is_any any_subject = true
is_any _ = false

pub record RuleSubject : Type 0 where
  pub type : SubjectType
  pub id : GoString

-- The switch of `Matches` over the subject's type.
abbrev selects : SubjectType → GoString → Subject → Bool
selects any_subject id s = true
selects user id s = id == s.user_id
selects group id s = in_group s id
selects (other_type t) id s = false

unfoldable pub subject_matches : RuleSubject → Subject → Bool
unfolding in_group
subject_matches rs s = selects rs.type rs.id s

pub record Rule : Type 0 where
  pub id : GoString
  pub subject : RuleSubject
  pub except : List RuleSubject
  pub paths : List Pattern
  pub refs : List Pattern
  pub actions : List Action
  pub effect : Effect
  pub description : GoString

unfoldable pub matches_subject : Rule → Subject → Bool
matches_subject r s =
    if not (subject_matches r.subject s)
    then false
    else not (any (λ ex. subject_matches ex s) r.except)

unfoldable pub has_action : Rule → Action → Bool
has_action r a = any (λ ra. action_eq ra a) r.actions

module _ ⦃ds : Doublestar⦄ where
  unfoldable pub matches_ref : Rule → GoString → Bool
  matches_ref r ref =
      if is_empty r.refs then true else if ref == [] then false else any (λ p. matches p ref) r.refs

  -- The loop of `MatchesPath`: the first pattern that covers the path.
  unfoldable pub first_match : List Pattern → GoString → Option Pattern
  first_match [] path = none
  first_match (p ∷ ps) path =
      let rest = first_match ps path in if matches p path then some p else rest

  abbrev pub matches_path : Rule → GoString → Option Pattern
  matches_path r path = first_match r.paths path
