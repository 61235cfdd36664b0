-- ===== src/Policy/Identity.antt =====
-- pkg/policy/identity.go: users, groups, repositories, and the subject of a request. The string
-- types TenantID, UserID, GroupID and RepoID are Go strings.
use mathlib.Core.Bool.{Bool}
use mathlib.Core.List.{List}
use nit.Base.{GoString, ◌==◌, any, text}

abbrev pub TenantId : Type 0
TenantId = GoString

abbrev pub UserId : Type 0
UserId = GoString

abbrev pub GroupId : Type 0
GroupId = GoString

abbrev pub RepoId : Type 0
RepoId = GoString

abbrev pub default_tenant : TenantId
default_tenant = text "default"

pub record User : Type 0 where
  pub id : UserId
  pub email : GoString
  pub aliases : List GoString
  pub forge_logins : List (GoString × GoString)
  pub disabled : Bool

pub record Group : Type 0 where
  pub id : GroupId
  pub description : GoString
  pub members : List UserId
  pub includes : List GroupId

pub record Repository : Type 0 where
  pub id : RepoId
  pub remote : GoString
  pub forge : GoString
  pub default_branch : GoString

pub record Subject : Type 0 where
  pub user_id : UserId
  pub groups : List GroupId

unfoldable pub in_group : Subject → GroupId → Bool
in_group s id = any (λ g. g == id) s.groups
