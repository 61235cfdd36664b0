-- ===== src/Patch/Change.antt =====
-- pkg/patch/change.go: one section of a patch and what it does to which paths. `Op` and `EntryKind`
-- are string types of which the package makes no other values than their constants.
use mathlib.Core.List.{List, [], ◌∷◌}
use nit.Base.{ℕ, Bool, true, false, not, GoString, ◌==◌, nat_eq, length, if◌then◌else◌}

pub data Op : Type 0 where
  add modify delete rename copy : Op

pub data EntryKind : Type 0 where
  blob symlink submodule unknown_kind : EntryKind

pub EntryKind-discrete : Discrete EntryKind
EntryKind-discrete = hlevel

unfoldable pub kind_discrete : Discrete EntryKind
unfolding EntryKind-discrete
kind_discrete = EntryKind-discrete

abbrev pub kind_eq : EntryKind → EntryKind → Bool
kind_eq a b = elim (kind_discrete a b) [ yes _ ↦ true | no _ ↦ false ]

abbrev pub mode_regular : ℕ
mode_regular = 0o100644

abbrev pub mode_executable : ℕ
mode_executable = 0o100755

abbrev pub mode_symlink : ℕ
mode_symlink = 0o120000

abbrev pub mode_submodule : ℕ
mode_submodule = 0o160000

unfoldable pub kind_of_mode : ℕ → EntryKind
kind_of_mode mode =
    if nat_eq mode 0
    then unknown_kind
    else if nat_eq mode mode_symlink
    then symlink
    else if nat_eq mode mode_submodule
    then submodule
    else blob

pub record Change : Type 0 where
  pub index : ℕ
  pub old_path : GoString
  pub new_path : GoString
  pub op : Op
  pub old_mode : ℕ
  pub new_mode : ℕ
  pub old_kind : EntryKind
  pub new_kind : EntryKind
  pub is_binary : Bool
  pub additions : ℕ
  pub deletions : ℕ
  pub raw : GoString

abbrev pub size : Change → ℕ
size c = length c.raw

unfoldable pub mode_changed : Change → Bool
mode_changed c =
    if nat_eq c.old_mode 0
    then false
    else if nat_eq c.new_mode 0
    then false
    else not (nat_eq c.old_mode c.new_mode)

unfoldable pub paths : Change → List GoString
paths c =
    if c.old_path == []
    then if c.new_path == [] then [] else c.new_path ∷ []
    else if c.new_path == []
    then c.old_path ∷ []
    else if c.old_path == c.new_path
    then c.new_path ∷ []
    else c.old_path ∷ c.new_path ∷ []

unfoldable pub display_path : Change → GoString
display_path c = if not (c.new_path == []) then c.new_path else c.old_path
