-- ===== src/Enforce/Check.antt =====
-- pkg/enforce/check.go: the authorization questions that a change raises, and their answers.
use mathlib.Core.List.{List, [], ◌∷◌}
use nit.Base.{Bool, GoString, keep, not}
use nit.Policy.Rule.{Action, read, write, create, delete}
use nit.Policy.Decision.{Decision}
use nit.Patch.Change.{Op, Change}

-- A string type of which the package makes no other values than its constants.
pub data GuardKind : Type 0 where
  guard_none guard_symlink guard_submodule guard_protected_path : GuardKind

pub record Check : Type 0 where
  pub path : GoString
  pub action : Action
  pub guard : GuardKind
  pub decision : Decision

abbrev pub passed : Check → Bool
passed c = c.decision.allowed

pub record Verdict : Type 0 where
  pub change : Change
  pub checks : List Check
  pub allowed : Bool

abbrev pub denials : Verdict → List Check
denials v = keep (λ c. not (passed c)) v.checks

pub record Requirement : Type 0 where
  pub path : GoString
  pub action : Action
  pub guard : GuardKind

abbrev pub plain : GoString → Action → Requirement
plain path action = record { path = path; action = action; guard = guard_none }

-- The switch of `requirementsFor`.
unfoldable pub requirements_of_op : Op → GoString → GoString → List Requirement
requirements_of_op Op.add old new = plain new create ∷ []
requirements_of_op Op.modify old new = plain new read ∷ plain new write ∷ []
requirements_of_op Op.delete old new = plain old read ∷ plain old delete ∷ []
requirements_of_op Op.rename old new = plain old read ∷ plain old delete ∷ plain new create ∷ []
requirements_of_op Op.copy old new = plain old read ∷ plain new create ∷ []

abbrev pub requirements_for : Change → List Requirement
requirements_for c = requirements_of_op c.op c.old_path c.new_path
