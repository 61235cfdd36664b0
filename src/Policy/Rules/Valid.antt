-- ===== src/Policy/Rules/Valid.antt =====
-- What a rule that was compiled satisfies, stated without the code's tests.
use mathlib.Core.List.{List, [], ◌∷◌}
use nit.Base.{
  ◌≡◌, ◌≢◌, ◌⊎◌, ◌↔◌, ℕ, suc, inl, inr, refl, true, false, All, Any, is_empty, arith, ok,
  mem_of_Any, Any-of_mem, ok-injective, Result-cases, not, ◌||◌,
}
use nit.Policy.Identity.{RepoId, UserId, GroupId, User, Group, Repository}
use nit.Policy.Rule.{
  Action, read, write, create, delete, action_valid, Effect, allow, deny, effect_valid, user, group,
  any_subject, subject_type_valid, is_any, RuleSubject, Rule,
}
use nit.Policy.Rules.{
  check_excepts, check_actions, check_blind, is_seen, validate_rule, compile_list, compile_rules,
  named_rule,
}

-- A user or a group, by an ID.
pub record IsNamed (s : RuleSubject) : Type 0 where
  pub type : (s.type ≡ user) ⊎ (s.type ≡ group)
  pub id : s.id ≢ []

abbrev pub Writes : Action → Type 0
Writes a = (a ≡ write) ⊎ ((a ≡ create) ⊎ (a ≡ delete))

pub record IsValid (r : Rule) : Type 0 where
  pub effect : (r.effect ≡ allow) ⊎ (r.effect ≡ deny)
  pub subject : (r.subject.type ≡ any_subject) ⊎ IsNamed r.subject
  pub except : All IsNamed r.except
  pub paths : r.paths ≢ []
  pub actions : r.actions ≢ []
  pub known_actions : All (λ a. action_valid a ≡ true) r.actions
  -- A rule that lets somebody write lets them read.
  pub reads : r.effect ≡ allow → Any Writes r.actions → Any (λ a. a ≡ read) r.actions

check_excepts-IsNamed : (xs : List RuleSubject) → check_excepts xs ≡ ok tt → All IsNamed xs
unfolding check_excepts subject_type_valid
check_excepts-IsNamed [] e = tt
check_excepts-IsNamed (x ∷ xs) e = ground (arith, check_excepts-IsNamed xs)

check_actions-step :
    (seen xs out : List Action) (x : Action)
    → check_actions seen (x ∷ xs) ≡ ok out
    → (action_valid x ≡ true) × (check_actions (x ∷ seen) xs ≡ ok out)
unfolding check_actions
check_actions-step seen xs out x e = (ground arith, ground arith)

-- The actions are known, and the set that the loop leaves has what it had before and the actions.
check_actions-ok :
    (seen xs out : List Action)
    → check_actions seen xs ≡ ok out
    → All (λ a. action_valid a ≡ true) xs
      × ((a : Action) → (is_seen out a ≡ true) ↔ ((is_seen seen a ≡ true) ⊎ Any (λ x. x ≡ a) xs))
unfolding check_actions
check_actions-ok seen [] out e = (tt, λ a. ground (arith, ok-injective e))
check_actions-ok seen (x ∷ xs) out e =
    let (known, e') = check_actions-step seen xs out x e in
    let (later, members) = check_actions-ok (x ∷ seen) xs out e' in
    ((known, later), λ a. let m = members a in ground arith)

-- The checks that passed, in their order.
record Passed (r : Rule) : Type 0 where
  effect : effect_valid r.effect ≡ true
  type : subject_type_valid r.subject.type ≡ true
  id : (is_any r.subject.type || not (is_empty r.subject.id)) ≡ true
  excepts : check_excepts r.except ≡ ok tt
  paths : is_empty r.paths ≡ false
  actions : is_empty r.actions ≡ false
  seen : List Action
  collected : check_actions [] r.actions ≡ ok seen
  sighted : check_blind r.effect seen ≡ ok tt

validate_rule-Passed : (r : Rule) → validate_rule r ≡ ok tt → Passed r
unfolding validate_rule
validate_rule-Passed r e = elim (Result-cases (check_actions [] r.actions)) [
  | inl (x, failed) ↦ absurd (ground arith)
  | inr (seen, collected) ↦ record {
    effect = ground arith;
    type = ground arith;
    id = ground arith;
    excepts = ground arith;
    paths = ground arith;
    actions = ground arith;
    seen = seen;
    collected = collected;
    sighted = ground arith;
  }
]

-- An accepted set of actions of an allow rule that has a writing action has the reading one.
check_blind-reads :
    (seen : List Action) (effect : Effect) (a : Action)
    → check_blind effect seen ≡ ok tt
    → effect ≡ allow
    → Writes a
    → is_seen seen a ≡ true
    → is_seen seen read ≡ true
check_blind-reads seen effect a e h w s = ground arith

Passed-IsValid : (r : Rule) → Passed r → IsValid r
unfolding effect_valid subject_type_valid
Passed-IsValid r p =
    let (known, members) = check_actions-ok [] r.actions p.seen p.collected in
    record {
      effect = ground arith;
      subject = ground arith;
      except = check_excepts-IsNamed r.except p.excepts;
      paths = ground arith;
      actions = ground arith;
      known_actions = known;
      reads = λ h w.
          let (a, m, writes) = mem_of_Any Writes r.actions w in
          let there = (members a).1 (inr (Any-of_mem (λ x. x ≡ a) m refl)) in
          elim ((members read).0 (check_blind-reads p.seen r.effect a p.sighted h writes there)) [
            | inl none ↦ absurd (ground arith)
            | inr found ↦ found
          ];
    }

validate_rule-IsValid : (r : Rule) → validate_rule r ≡ ok tt → IsValid r
validate_rule-IsValid r e = Passed-IsValid r (validate_rule-Passed r e)

module _ (users : List (UserId × User)) (groups : List (GroupId × Group))
    (repos : List (RepoId × Repository)) where
  compile_list-IsValid :
      (repo : RepoId) (i : ℕ) (rs out : List Rule)
      → compile_list users groups repos repo i rs ≡ ok out
      → All IsValid out
  unfolding compile_list
  compile_list-IsValid repo i [] out e = ground (arith, ok-injective e)
  compile_list-IsValid repo i (r ∷ rs) out e =
      elim (Result-cases (compile_list users groups repos repo (suc i) rs)) [
        | inl (x, failed) ↦ absurd (ground arith)
        | inr (later, compiled) ↦
            let valid = validate_rule-IsValid (named_rule repo i r) (ground arith) in
            let rest = compile_list-IsValid repo (suc i) rs later compiled in
            let here : out ≡ named_rule repo i r ∷ later = ground arith in rw here (valid, rest)
      ]

  -- Every rule of a bundle whose rules compile is valid: it allows or denies, names a user or a group
  -- by an ID or stands for anyone, exempts only such named subjects, has a path and an action and
  -- only known actions, and if it allows to write, create or delete it also allows to read.
  pub compile_rules-IsValid :
      (spec out : List (RepoId × List Rule))
      → compile_rules users groups repos spec ≡ ok out
      → All (λ entry. All IsValid entry.1) out
  unfolding compile_rules
  compile_rules-IsValid [] out e = ground (arith, ok-injective e)
  compile_rules-IsValid ((repo, rs) ∷ spec) out e =
      elim (Result-cases (compile_list users groups repos repo 0 rs)) [
        | inl (x, failed) ↦ absurd (ground arith)
        | inr (compiled, e1) ↦ elim (Result-cases (compile_rules users groups repos spec)) [
          | inl (x, failed) ↦ absurd (ground arith)
          | inr (later, e2) ↦
              let rest = compile_rules-IsValid spec later e2 in
              let here : out ≡ (repo, compiled) ∷ later = ground arith in
              rw here (compile_list-IsValid repo 0 rs compiled e1, rest)
        ]
      ]
