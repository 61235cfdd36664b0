-- ===== src/Policy/Compile.antt =====
-- pkg/policy/policy.go: a bundle, and its compilation into a policy.
pub mod Compiled
use mathlib.Core.List.{List, [], ◌∷◌}
use mathlib.Core.Bool.{Bool, true, false, not}
use mathlib.Core.Option.{Option, none, some}
use mathlib.Core.Option
use nit.Base.{
  GoString, str_discrete, lookup, has_key, insert, is_empty, map, if◌then◌else◌, Result, ok, err,
  refuse_if, ◌>>=◌, ◌>>◌, sort_by, str_ltb,
}
use nit.Policy.Identity.{
  TenantId, UserId, GroupId, RepoId, default_tenant, User, Group, Repository, Subject,
}
use nit.Policy.Rule.{Rule}
use nit.Policy.Rules.{RuleError, compile_rules}
use nit.Policy.Groups.{
  GroupError, adopt_directory_groups, check_group_references, resolve_memberships,
}
use nit.Policy.Engine.{Policy}

pub record Spec : Type 0 where
  pub tenant : TenantId
  pub version : GoString
  pub users : List User
  pub groups : List Group
  pub repositories : List Repository
  pub rules : List (RepoId × List Rule)

pub data CompileError : Type 0 where
  empty_id : CompileError
  duplicate_id : GoString → CompileError
  in_groups : GroupError → CompileError
  in_rules : RuleError → CompileError

-- The loop over the users, the groups or the repositories: an empty ID is refused, and one that was
-- met before.
unfoldable pub add_all :
    {A : Type 0}
    → (A → GoString)
    → List A
    → List (GoString × A)
    → Result CompileError (List (GoString × A))
add_all id_of [] m = ok m
add_all id_of (x ∷ xs) m = do
  refuse_if (is_empty (id_of x)) empty_id
  refuse_if (has_key str_discrete (id_of x) m) (duplicate_id (id_of x))
  add_all id_of xs (insert str_discrete (id_of x) x m)

abbrev pub or_group_error {ℓ} : {A : Type ℓ} → Result GroupError A → Result CompileError A
or_group_error (ok a) = ok a
or_group_error (err e) = err (in_groups e)

abbrev pub or_rule_error {ℓ} : {A : Type ℓ} → Result RuleError A → Result CompileError A
or_rule_error (ok a) = ok a
or_rule_error (err e) = err (in_rules e)

abbrev pub tenant_of : Spec → TenantId
tenant_of spec = if is_empty spec.tenant then default_tenant else spec.tenant

unfoldable pub compile : Spec → Result CompileError Policy
compile spec = do
  users ← add_all (λ (u : User). u.id) spec.users []
  declared ← add_all (λ (g : Group). g.id) spec.groups []
  let groups = adopt_directory_groups spec.groups spec.rules declared
  repos ← add_all (λ (r : Repository). r.id) spec.repositories []
  or_group_error (check_group_references users groups)
  memberships ← or_group_error (resolve_memberships users groups)
  rules ← or_rule_error (compile_rules users groups repos spec.rules)
  ok (record {
    tenant = tenant_of spec;
    version = spec.version;
    users = users;
    groups = groups;
    repos = repos;
    rules = rules;
    memberships = memberships;
  })

pub data SubjectError : Type 0 where
  unknown_user : UserId → SubjectError

-- A missing key of the memberships reads as the nil slice.
unfoldable pub subject : UserId → Policy → Result SubjectError Subject
subject id p =
    if has_key str_discrete id p.users
    then ok
        (record { user_id = id; groups = Option.get_or (lookup str_discrete id p.memberships) [] })
    else err (unknown_user id)

abbrev pub values : {A : Type 0} → List (GoString × A) → List A
values m = map (λ entry. entry.1) m

unfoldable pub repositories : Policy → List Repository
repositories p = sort_by (λ a b. str_ltb a.id b.id) (values p.repos)

unfoldable pub users : Policy → List User
users p = sort_by (λ a b. str_ltb a.id b.id) (values p.users)

unfoldable pub groups : Policy → List Group
groups p = sort_by (λ a b. str_ltb a.id b.id) (values p.groups)
