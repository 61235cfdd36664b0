-- ===== src/Policy/Rules.antt =====
-- pkg/policy/policy.go: the rules of a bundle, checked and compiled.
--
-- The name of the repository and of the rule, which an error carries, are left out of it.
pub mod Valid
pub mod Reading
use mathlib.Core.List.{List, [], ◌∷◌, ◌++◌}
use mathlib.Core.Bool.{Bool, true, false, not, ◌&&◌}
use nit.Base.{
  ℕ, suc, GoString, text, digits, str_discrete, has_key, any, is_empty, if◌then◌else◌, Result, ok,
  err, refuse_if, ◌>>=◌, ◌>>◌,
}
use nit.Policy.Identity.{RepoId, UserId, GroupId, User, Group, Repository}
use nit.Policy.Rule.{
  Action, read, write, create, delete, action_eq, action_valid, Effect, effect_valid, is_allow,
  SubjectType, user, group, any_subject, other_type, subject_type_valid, is_any, RuleSubject, Rule,
}

pub data RuleError : Type 0 where
  unknown_repository : RepoId → RuleError
  invalid_effect : RuleError
  invalid_subject_type : RuleError
  missing_subject_id : RuleError
  invalid_except_type : RuleError
  except_any : RuleError
  missing_except_id : RuleError
  no_path : RuleError
  no_action : RuleError
  invalid_action : Action → RuleError
  duplicate_action : Action → RuleError
  writes_blind : Action → RuleError
  unknown_user : GoString → RuleError
  unknown_group : GoString → RuleError

-- The loop over the exceptions.
unfoldable pub check_excepts : List RuleSubject → Result RuleError (Unit {0})
check_excepts [] = ok tt
check_excepts (ex ∷ rest) = do
  refuse_if (not (subject_type_valid ex.type)) invalid_except_type
  refuse_if (is_any ex.type) except_any
  refuse_if (is_empty ex.id) missing_except_id
  check_excepts rest

-- `_, ok := seen[a]`: the set of actions is a list.
abbrev pub is_seen : List Action → Action → Bool
is_seen seen a = any (λ s. action_eq s a) seen

-- The loop over the actions, up to the set that it leaves.
unfoldable pub check_actions : List Action → List Action → Result RuleError (List Action)
check_actions seen [] = ok seen
check_actions seen (a ∷ rest) = do
  refuse_if (not (action_valid a)) (invalid_action a)
  refuse_if (is_seen seen a) (duplicate_action a)
  check_actions (a ∷ seen) rest

-- The first writing action that was seen is refused.
abbrev pub check_writes : List Action → List Action → Result RuleError (Unit {0})
check_writes seen [] = ok tt
check_writes seen (a ∷ rest) = refuse_if (is_seen seen a) (writes_blind a) >> check_writes seen rest

abbrev pub check_blind : Effect → List Action → Result RuleError (Unit {0})
check_blind effect seen =
    if not (is_seen seen read) && is_allow effect
    then check_writes seen (write ∷ create ∷ delete ∷ [])
    else ok tt

unfoldable pub validate_rule : Rule → Result RuleError (Unit {0})
validate_rule r = do
  refuse_if (not (effect_valid r.effect)) invalid_effect
  refuse_if (not (subject_type_valid r.subject.type)) invalid_subject_type
  refuse_if (not (is_any r.subject.type) && is_empty r.subject.id) missing_subject_id
  check_excepts r.except
  refuse_if (is_empty r.paths) no_path
  refuse_if (is_empty r.actions) no_action
  seen ← check_actions [] r.actions
  check_blind r.effect seen

-- `repo#i`, for a rule without an ID.
abbrev pub named_rule : RepoId → ℕ → Rule → Rule
named_rule repo i r =
    if is_empty r.id then record r { id = repo ++ text "#" ++ digits (suc i) i } else r

-- The maps of the policy that is being compiled.
module _ (users : List (UserId × User)) (groups : List (GroupId × Group))
    (repos : List (RepoId × Repository)) where
  abbrev pub check_reference : SubjectType → GoString → Result RuleError (Unit {0})
  check_reference user id = refuse_if (not (has_key str_discrete id users)) (unknown_user id)
  check_reference group id = refuse_if (not (has_key str_discrete id groups)) (unknown_group id)
  check_reference any_subject id = ok tt
  check_reference (other_type t) id = ok tt

  abbrev pub check_references : List RuleSubject → Result RuleError (Unit {0})
  check_references [] = ok tt
  check_references (s ∷ rest) = check_reference s.type s.id >> check_references rest

  unfoldable pub check_rule_subject : Rule → Result RuleError (Unit {0})
  check_rule_subject r = check_references (r.subject ∷ r.except)

  -- The rules of one repository, from the one at position `i` on.
  unfoldable pub compile_list : RepoId → ℕ → List Rule → Result RuleError (List Rule)
  compile_list repo i [] = ok []
  compile_list repo i (r ∷ rest) = do
    let r' = named_rule repo i r
    validate_rule r'
    check_rule_subject r'
    compiled ← compile_list repo (suc i) rest
    ok (r' ∷ compiled)

  -- The rules of every repository, in the order in which the loop meets them.
  unfoldable pub compile_rules :
      List (RepoId × List Rule) → Result RuleError (List (RepoId × List Rule))
  compile_rules [] = ok []
  compile_rules ((repo, list) ∷ rest) = do
    refuse_if (not (has_key str_discrete repo repos)) (unknown_repository repo)
    compiled ← compile_list repo 0 list
    later ← compile_rules rest
    ok ((repo, compiled) ∷ later)
