-- ===== src/Patch/Sections.antt =====
-- pkg/patch/parse.go, `splitSections`: the byte range of every file section. A section starts at a
-- line that begins with "diff --git ".
use mathlib.Core.List.{List, [], ◌∷◌}
use nit.Base.{ℕ, ◌+◌, GoString, text, has_prefix, nat_eq, length, if◌then◌else◌, Result, ok, err}

abbrev pub section_marker : GoString
section_marker = text "diff --git "

abbrev pub combined_marker : GoString
combined_marker = text "diff --cc "

pub record Bound : Type 0 where
  pub start : ℕ
  pub end : ℕ

pub data ParseError : Type 0 where
  empty combined_diff : ParseError
  gitdiff_error : ℕ → ParseError
  wrong_file_count : ℕ → ℕ → ParseError

-- A byte before the first line of what follows.
abbrev pub onto_first : ℕ → List GoString → List GoString
onto_first c [] = (c ∷ []) ∷ []
onto_first c (line ∷ lines) = (c ∷ line) ∷ lines

-- The lines that the loop meets, each with its newline; the last may have none.
unfoldable pub lines_of : GoString → List GoString
lines_of [] = []
lines_of (c ∷ s) =
    let rest = lines_of s in if nat_eq c b'\n' then (c ∷ []) ∷ rest else onto_first c rest

-- `bounds[n-1].end = offset` if there is one, then a new bound up to the end of the patch.
unfoldable pub open_section : List Bound → ℕ → ℕ → List Bound
open_section [] offset total = record { start = offset; end = total } ∷ []
open_section (b ∷ []) offset total =
    record b { end = offset } ∷ record { start = offset; end = total } ∷ []
open_section (b ∷ b' ∷ bs) offset total = b ∷ open_section (b' ∷ bs) offset total

-- The loop, over the lines that are left from `offset` on.
unfoldable pub scan_lines : ℕ → ℕ → List GoString → List Bound → Result ParseError (List Bound)
unfolding open_section
scan_lines total offset [] bounds = ok bounds
scan_lines total offset (line ∷ lines) bounds =
    let opens = has_prefix line section_marker in
    let bounds' = if opens then open_section bounds offset total else bounds in
    let rest = scan_lines total (offset + length line) lines bounds' in
    if opens then rest else if has_prefix line combined_marker then err combined_diff else rest

unfoldable pub split_sections : GoString → Result ParseError (List Bound)
unfolding scan_lines lines_of
split_sections raw = scan_lines (length raw) 0 (lines_of raw) []
