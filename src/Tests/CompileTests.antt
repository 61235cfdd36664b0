-- ===== src/Tests/CompileTests.antt =====
-- pkg/policy/policy.go, the compilation of a bundle.
use mathlib.Core.List.{List, [], ◌∷◌}
use nit.Base.{
  ◌≡◌, ◌≢◌, ◌↔◌, refl, true, some, text, GoString, ok, err, IsOk, value, value_lem, str_discrete,
  str_ltb, has_prefix, lookup, insert, sort_by, insert_by, value_lem,
}
use nit.Policy.Identity.{UserId, GroupId, Group, Subject, in_group}
use nit.Policy.Rule.{action_discrete, action_valid, effect_valid, subject_type_valid}
use nit.Policy.Rules.{
  compile_rules, compile_list, validate_rule, check_excepts, check_actions, check_rule_subject,
}
use nit.Policy.Groups.{
  inclusion_cycle, out_of_fuel, adopt, adopt_all, adopt_directory_groups, check_group_references,
  resolve_memberships, detect_group_cycles, visit, visit_each, includes_at, included_by, direct,
  closure, groups_of_user,
}
use nit.Policy.Groups.Belongs.{Belongs}
use nit.Policy.Engine.{Policy}
use nit.Policy.Compile.{Spec, in_groups, add_all, compile, subject}
use nit.Policy.Compile.Compiled.{
  IsCompiled, compile-IsCompiled, resolve_memberships_terminates, subject-Belongs,
}
use nit.Tests.Samples.{alice, api, writers, no_secrets}

abbrev group_of : GoString → List UserId → List GroupId → Group
group_of id members includes = record {
  id = id;
  description = [];
  members = members;
  includes = includes;
}

-- `ops` lists alice, `eng` includes `ops`, and `all` includes `eng` and a directory group.
abbrev sample_groups : List Group
sample_groups =
    group_of (text "all") [] (text "eng" ∷ text "idp:staff" ∷ [])
    ∷ group_of (text "eng") [] (text "ops" ∷ [])
    ∷ group_of (text "ops") (text "alice" ∷ []) []
    ∷ []

abbrev sample : Spec
sample = record {
  tenant = [];
  version = text "v1";
  users = alice ∷ [];
  groups = sample_groups;
  repositories = api ∷ [];
  rules = (text "api", writers ∷ no_secrets ∷ []) ∷ [];
}

abbrev circular : Spec
circular = record sample {
  groups =
      group_of (text "ops") [] (text "eng" ∷ []) ∷ group_of (text "eng") [] (text "ops" ∷ []) ∷ [];
}

compiles : IsOk (compile sample)
unfolding compile add_all adopt_directory_groups adopt_all adopt check_group_references
    resolve_memberships detect_group_cycles visit visit_each includes_at included_by direct closure
    groups_of_user compile_rules compile_list validate_rule check_excepts check_actions
    check_rule_subject action_discrete action_valid effect_valid subject_type_valid str_discrete
    str_ltb has_prefix lookup insert sort_by insert_by
compiles = tt

finds_cycle :
    compile circular ≡ err (in_groups (inclusion_cycle (text "eng" ∷ text "ops" ∷ []) (text "eng")))
unfolding compile add_all adopt_directory_groups adopt_all adopt check_group_references
    resolve_memberships detect_group_cycles visit visit_each includes_at str_discrete str_ltb
    has_prefix lookup insert sort_by insert_by
finds_cycle = refl

abbrev compiled : Policy
compiled = value (compile sample) compiles

abbrev compiled_lem : compile sample ≡ ok compiled
compiled_lem = value_lem (compile sample) compiles

knows_alice : lookup str_discrete (text "alice") compiled.users ≡ some alice
knows_alice = (compile-IsCompiled sample compiled compiled_lem).users.0

compile-IsCompiled_example : IsCompiled sample compiled
compile-IsCompiled_example = compile-IsCompiled sample compiled compiled_lem

resolve_memberships_terminates_example :
    resolve_memberships compiled.users compiled.groups ≢ err out_of_fuel
resolve_memberships_terminates_example =
    resolve_memberships_terminates compiled.users compiled.groups

subject-Belongs_example :
    (s : Subject) × (subject (text "alice") compiled ≡ ok s)
    × ((g : GroupId) → (in_group s g ≡ true) ↔ ∥ Belongs compiled.groups (text "alice") g ∥₁)
subject-Belongs_example =
    subject-Belongs sample compiled (text "alice") alice compiled_lem knows_alice
