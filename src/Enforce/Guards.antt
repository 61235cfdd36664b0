-- ===== src/Enforce/Guards.antt =====
-- pkg/enforce/guards.go: the structural protections on top of the path rules.
use mathlib.Core.List.{List, [], ◌∷◌, ◌++◌}
use nit.Base.{Bool, true, false, not, ◌&&◌, Option, none, some, GoString, text, any, if◌then◌else◌}
use nit.Policy.Pattern.{Doublestar, Pattern, matches, must_parse_pattern}
use nit.Policy.Rule.{admin}
use nit.Patch.Change.{Op, Change, EntryKind, symlink, submodule, kind_eq, paths, display_path}
use nit.Enforce.Check.{GuardKind, guard_symlink, guard_submodule, guard_protected_path, Requirement}

pub record Guards : Type 0 where
  pub protected_paths : List Pattern
  pub symlinks_require_admin : Bool
  pub submodules_require_admin : Bool

abbrev pub default_protected_paths : List GoString
default_protected_paths =
    text ".github/"
    ∷ text ".gitlab-ci.yml"
    ∷ text ".gitlab/"
    ∷ text ".gitea/"
    ∷ text ".circleci/"
    ∷ text ".drone.yml"
    ∷ text "azure-pipelines.yml"
    ∷ text "Jenkinsfile"
    ∷ text "**/Jenkinsfile"
    ∷ text ".gitattributes"
    ∷ text "**/.gitattributes"
    ∷ text ".gitmodules"
    ∷ text ".nit/"
    ∷ []

abbrev moves : Op → Bool
moves Op.rename = true
moves Op.copy = true
moves _ = false

unfoldable pub introduces_kind : Change → EntryKind → Bool
introduces_kind c kind =
    if not (kind_eq c.new_kind kind)
    then false
    else if moves c.op
    then true
    else not (kind_eq c.old_kind kind)

abbrev pub admin_on : GoString → GuardKind → Requirement
admin_on path guard = record { path = path; action = admin; guard = guard }

module _ ⦃ds : Doublestar⦄ where
  -- The patterns of `DefaultGuards`; `none` is the panic on an invalid one.
  unfoldable pub must_parse_all : List GoString → Option (List Pattern)
  must_parse_all [] = some []
  must_parse_all (s ∷ ss) =
      let rest = must_parse_all ss in
      elim (must_parse_pattern s) [
        | none ↦ none
        | some p ↦ elim rest [ none ↦ none | some ps ↦ some (p ∷ ps) ]
      ]

  unfoldable pub default_guards : Option Guards
  unfolding must_parse_all
  default_guards = elim (must_parse_all default_protected_paths) [
    | none ↦ none
    | some patterns ↦ some (record {
      protected_paths = patterns;
      symlinks_require_admin = true;
      submodules_require_admin = true;
    })
  ]

  unfoldable pub is_protected : Guards → GoString → Bool
  is_protected g path = any (λ p. matches p path) g.protected_paths

  unfoldable pub protected_requirements : Guards → List GoString → List Requirement
  unfolding is_protected
  protected_requirements g [] = []
  protected_requirements g (path ∷ ps) =
      let rest = protected_requirements g ps in
      if is_protected g path then admin_on path guard_protected_path ∷ rest else rest

  unfoldable pub guard_requirements : Guards → Change → List Requirement
  unfolding protected_requirements introduces_kind
  guard_requirements g c =
      (if g.symlinks_require_admin && introduces_kind c symlink
        then admin_on (display_path c) guard_symlink ∷ []
        else [])
      ++ ((if g.submodules_require_admin && introduces_kind c submodule
            then admin_on (display_path c) guard_submodule ∷ []
            else [])
          ++ protected_requirements g (paths c))
