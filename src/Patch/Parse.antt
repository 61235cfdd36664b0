-- ===== src/Patch/Parse.antt =====
-- pkg/patch/parse.go: a patch taken apart into sections with their metadata. The metadata comes
-- from github.com/bluekeyes/go-gitdiff, which is not under this repository: its `Parse` is the
-- parameter `Gitdiff`.
use mathlib.Core.List.{List, [], ◌∷◌, ◌++◌, map}
use nit.Base.{
  ℕ, suc, ◌+◌, ◌-◌, Bool, not, ◌&&◌, Option, none, some, GoString, ◌==◌, nat_eq, length, any, take,
  drop, if◌then◌else◌, Result, ok, err, ◌>>=◌,
}
use nit.Patch.Change.{Op, add, modify, delete, rename, copy, Change, kind_of_mode, paths}
use nit.Patch.Sections.{Bound, ParseError, empty, gitdiff_error, wrong_file_count, split_sections}

-- gitdiff.File, its fragments as their counts of added and of deleted lines.
pub record GitFile : Type 0 where
  pub old_name : GoString
  pub new_name : GoString
  pub is_new : Bool
  pub is_delete : Bool
  pub is_rename : Bool
  pub is_copy : Bool
  pub old_mode : ℕ
  pub new_mode : ℕ
  pub is_binary : Bool
  pub fragments : List (ℕ × ℕ)

-- gitdiff.Parse on the bytes of one section; `none` is an error.
pub record Gitdiff : Type 0 where
  pub parse_files : GoString → Option (List GitFile)

unfoldable pub operation_of : GitFile → Op
operation_of f =
    if f.is_rename
    then rename
    else if f.is_copy
    then copy
    else if f.is_new
    then add
    else if f.is_delete
    then delete
    else modify

abbrev pub sum_of : List ℕ → ℕ
sum_of [] = 0
sum_of (n ∷ ns) = n + sum_of ns

-- The two sides share a mode that only one of them reports, except where the other is not there.
unfoldable pub shared_old_mode : GitFile → ℕ
shared_old_mode f =
    if nat_eq f.old_mode 0 && (not (nat_eq f.new_mode 0) && not f.is_new)
    then f.new_mode
    else f.old_mode

unfoldable pub shared_new_mode : GitFile → ℕ
unfolding shared_old_mode
shared_new_mode f =
    let old = shared_old_mode f in
    if nat_eq f.new_mode 0 && (not (nat_eq old 0) && not f.is_delete) then old else f.new_mode

unfoldable pub change_of : ℕ → GoString → GitFile → Change
unfolding operation_of shared_new_mode
change_of index section f = record {
  index = index;
  old_path = f.old_name;
  new_path = f.new_name;
  op = operation_of f;
  old_mode = shared_old_mode f;
  new_mode = shared_new_mode f;
  old_kind = kind_of_mode (shared_old_mode f);
  new_kind = kind_of_mode (shared_new_mode f);
  is_binary = f.is_binary;
  additions = sum_of (map (λ n. n.0) f.fragments);
  deletions = sum_of (map (λ n. n.1) f.fragments);
  raw = section;
}

-- `Set`, without the unexported copy of the input.
pub record ChangeSet : Type 0 where
  pub preamble : GoString
  pub changes : List Change
  pub raw : GoString

-- `raw[b.start:b.end]`.
abbrev pub slice : GoString → Bound → GoString
slice raw b = take (b.end - b.start) (drop b.start raw)

-- `seen` is the map's key set, in order of first appearance; it is also the result.
unfoldable pub new_paths : List GoString → List GoString → List GoString
new_paths seen [] = seen
new_paths seen (p ∷ ps) = new_paths (if any (λ q. q == p) seen then seen else seen ++ p ∷ []) ps

unfoldable pub set_paths_from : List GoString → List Change → List GoString
unfolding new_paths
set_paths_from seen [] = seen
set_paths_from seen (c ∷ cs) = set_paths_from (new_paths seen (paths c)) cs

abbrev pub set_paths : ChangeSet → List GoString
set_paths s = set_paths_from [] s.changes

module _ ⦃gd : Gitdiff⦄ where
  -- The file of a section, if there is exactly one.
  unfoldable pub parse_section : ℕ → GoString → Result ParseError Change
  unfolding change_of
  parse_section index section = elim (gd.parse_files section) [
    | none ↦ err (gitdiff_error index)
    | some files ↦ elim files [
      | [] ↦ err (wrong_file_count index 0)
      | f ∷ more ↦ elim more [
        | [] ↦ ok (change_of index section f)
        | g ∷ others ↦ err (wrong_file_count index (suc (suc (length others))))
      ]
    ]
  ]

  -- The loop over the bounds, from section `i` on.
  unfoldable pub parse_sections : GoString → ℕ → List Bound → Result ParseError (List Change)
  unfolding parse_section
  parse_sections raw i [] = ok []
  parse_sections raw i (b ∷ bs) = do
    change ← parse_section i (slice raw b)
    changes ← parse_sections raw (suc i) bs
    ok (change ∷ changes)

  -- `Parse` once the sections are located.
  unfoldable pub parse_bounds : GoString → List Bound → Result ParseError ChangeSet
  unfolding parse_sections
  parse_bounds raw [] = err empty
  parse_bounds raw (b ∷ bs) = do
    changes ← parse_sections raw 0 (b ∷ bs)
    ok (record { preamble = take b.start raw; changes = changes; raw = raw })

  unfoldable pub parse : GoString → Result ParseError ChangeSet
  unfolding parse_bounds split_sections
  parse raw = do bounds ← split_sections raw; parse_bounds raw bounds
