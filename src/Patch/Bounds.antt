-- ===== src/Patch/Bounds.antt =====
-- The byte ranges that `splitSections` finds, against a description by lines: a section is a marker
-- line with the lines up to the next one.
use mathlib.Core.List.{List, [], ◌∷◌, ◌++◌, map, append_assoc, append-nil, flatten}
use mathlib.Core.Path.{ap₂}
use nit.Base.{
  ℕ, ◌+◌, ◌-◌, ◌≡◌, refl, sym, ap, ◌∙◌, ◌↔◌, Bool, true, false, GoString, length, has_prefix, arith,
  take, drop, length-append, take-length-append, drop-length-append, drop-add, if◌then◌else◌, ok,
  err, Bool-cases, nat_eq, ok-injective, Any, inl, inr,
}
use nit.Patch.Sections.{
  Bound, combined_diff, section_marker, combined_marker, onto_first, lines_of, open_section,
  scan_lines, split_sections,
}
use nit.Patch.Parse.{slice}

abbrev pub opens : GoString → Bool
opens line = has_prefix line section_marker

-- The lines before the first marker line, joined, and then the sections.
unfoldable pub sections_of : List GoString → GoString × List GoString
sections_of [] = ([], [])
sections_of (line ∷ lines) =
    let (before, sections) = sections_of lines in
    if opens line then ([], (line ++ before) ∷ sections) else (line ++ before, sections)

flatten-onto_first :
    (c : ℕ) (lines : List GoString) → flatten (onto_first c lines) ≡ c ∷ flatten lines
unfolding flatten
flatten-onto_first c [] = refl
flatten-onto_first c (line ∷ lines) = refl

lines_of-flatten : (s : GoString) → flatten (lines_of s) ≡ s
unfolding lines_of flatten
lines_of-flatten [] = refl
lines_of-flatten (c ∷ s) =
    let ih = lines_of-flatten s in
    elim (Bool-cases (nat_eq c b'\n')) [
      | inl newline ↦ rw newline (ap (◌∷◌ c) ih)
      | inr other ↦ rw other (flatten-onto_first c (lines_of s) ∙ ap (◌∷◌ c) ih)
    ]

sections_of-flatten :
    (lines : List GoString) → (sections_of lines).0 ++ flatten (sections_of lines).1 ≡ flatten lines
unfolding sections_of flatten
sections_of-flatten [] = refl
sections_of-flatten (line ∷ lines) =
    let ih = sections_of-flatten lines in
    elim (Bool-cases (opens line)) [
      | inl marker ↦ rw marker (append_assoc line _ _ ∙ ap (λ t. line ++ t) ih)
      | inr other ↦ rw other (append_assoc line _ _ ∙ ap (λ t. line ++ t) ih)
    ]

-- The ranges of adjacent pieces from an offset on.
abbrev place : ℕ → List GoString → List Bound
place o [] = []
place o (x ∷ xs) = record { start = o; end = o + length x } ∷ place (o + length x) xs

abbrev close_last : List Bound → ℕ → List Bound
close_last [] e = []
close_last (b ∷ []) e = record b { end = e } ∷ []
close_last (b ∷ b' ∷ bs) e = b ∷ close_last (b' ∷ bs) e

abbrev EndsAt : ℕ → List Bound → Type 0
EndsAt total [] = Unit
EndsAt total (b ∷ []) = b.end ≡ total
EndsAt total (b ∷ b' ∷ bs) = EndsAt total (b' ∷ bs)

close_last-open_section :
    (bs : List Bound) (offset total e : ℕ)
    → close_last (open_section bs offset total) e
      ≡ close_last bs offset ++ record { start = offset; end = e } ∷ []
unfolding open_section
close_last-open_section [] offset total e = refl
close_last-open_section (b ∷ []) offset total e = refl
close_last-open_section (b ∷ b' ∷ []) offset total e = refl
close_last-open_section (b ∷ b' ∷ b'' ∷ bs) offset total e =
    ap (◌∷◌ b) (close_last-open_section (b' ∷ b'' ∷ bs) offset total e)

open_section-EndsAt :
    (bs : List Bound) (offset total : ℕ) → EndsAt total (open_section bs offset total)
unfolding open_section
open_section-EndsAt [] offset total = refl
open_section-EndsAt (b ∷ []) offset total = refl
open_section-EndsAt (b ∷ b' ∷ []) offset total = refl
open_section-EndsAt (b ∷ b' ∷ b'' ∷ bs) offset total =
    open_section-EndsAt (b' ∷ b'' ∷ bs) offset total

close_last_of_EndsAt : (bs : List Bound) (e : ℕ) → EndsAt e bs → close_last bs e ≡ bs
close_last_of_EndsAt [] e h = refl
close_last_of_EndsAt (b ∷ []) e h = rw (← h)
close_last_of_EndsAt (b ∷ b' ∷ bs) e h = ap (◌∷◌ b) (close_last_of_EndsAt (b' ∷ bs) e h)

scan_lines-place :
    (total offset : ℕ) (lines : List GoString) (bounds bs : List Bound)
    → offset + length (flatten lines) ≡ total
    → EndsAt total bounds
    → scan_lines total offset lines bounds ≡ ok bs
    → let o = offset + length (sections_of lines).0 in
      bs ≡ close_last bounds o ++ place o (sections_of lines).1
unfolding scan_lines sections_of flatten
scan_lines-place total offset [] bounds bs t h e =
    let total_here : offset + 0 ≡ total = t in
    ok-injective (sym e)
    ∙ sym (close_last_of_EndsAt bounds _ (rw total_here h))
    ∙ sym (append-nil _)
scan_lines-place total offset (line ∷ lines) bounds bs t h e =
    let pre = (sections_of lines).0 in
    let o = offset + length line + length pre in
    let total_later : offset + length line + length (flatten lines) ≡ total =
      omega (arith, length-append line (flatten lines)) in
    let next : offset + length (line ++ pre) ≡ o = omega (arith, length-append line pre) in
    elim (Bool-cases (opens line)) [
      | inl marker ↦
          let ih =
            scan_lines-place total (offset + length line) lines (open_section bounds offset total)
              bs total_later (open_section-EndsAt bounds offset total) (ground arith) in
          let here : offset + 0 ≡ offset = omega arith in
          rw (marker, here, next)
            (ih
              ∙ ap (λ t. t ++ place o (sections_of lines).1)
                  (close_last-open_section bounds offset total o)
              ∙ append_assoc (close_last bounds offset) _ _)
      | inr other ↦
          rw (other, next)
            (scan_lines-place total (offset + length line) lines bounds bs total_later h
              (ground arith))
    ]

place-head :
    {b : Bound} {bs : List Bound} (o : ℕ) (xs : List GoString) → (b ∷ bs) ≡ place o xs → b.start ≡ o
place-head o [] e = cc
place-head o (x ∷ xs) e = ground arith

slice-place :
    (raw : GoString) (o : ℕ) (xs : List GoString)
    → drop o raw ≡ flatten xs
    → map (slice raw) (place o xs) ≡ xs
unfolding flatten
slice-place raw o [] h = refl
slice-place raw o (x ∷ xs) h =
    let width : o + length x - o ≡ length x = omega arith in
    let here : slice raw (record { start = o; end = o + length x }) ≡ x =
      rw (width, h) (take-length-append x (flatten xs)) in
    let later : drop (o + length x) raw ≡ flatten xs =
      drop-add o (length x) raw ∙ ap (drop (length x)) h ∙ drop-length-append x (flatten xs) in
    ap₂ ◌∷◌ here (slice-place raw (o + length x) xs later)

-- A patch is its lines before the first section, and then its sections.
pub sections_of-raw :
    (raw : GoString)
    → (sections_of (lines_of raw)).0 ++ flatten (sections_of (lines_of raw)).1 ≡ raw
sections_of-raw raw = sections_of-flatten (lines_of raw) ∙ lines_of-flatten raw

module _ (raw : GoString) where
  split_sections-place :
      (bs : List Bound)
      → split_sections raw ≡ ok bs
      → bs ≡ place (length (sections_of (lines_of raw)).0) (sections_of (lines_of raw)).1
  unfolding split_sections
  split_sections-place bs e =
      let o = length (sections_of (lines_of raw)).0 in
      let whole : 0 + length (flatten (lines_of raw)) ≡ length raw =
        omega (arith, ap (λ (t : GoString). length t) (lines_of-flatten raw)) in
      let start : 0 + o ≡ o = omega arith in
      scan_lines-place (length raw) 0 (lines_of raw) [] bs whole tt e
      ∙ ap (λ o'. place o' (sections_of (lines_of raw)).1) start

  drop-preamble :
      drop (length (sections_of (lines_of raw)).0) raw ≡ flatten (sections_of (lines_of raw)).1
  drop-preamble =
      ap (drop (length (sections_of (lines_of raw)).0)) (sym (sections_of-raw raw))
      ∙ drop-length-append (sections_of (lines_of raw)).0 _

  -- The ranges found in a patch cut it into the sections that its lines make, in order.
  pub split_sections-slice :
      (bs : List Bound)
      → split_sections raw ≡ ok bs
      → map (slice raw) bs ≡ (sections_of (lines_of raw)).1
  split_sections-slice bs e = rw (split_sections-place bs e) (slice-place raw _ _ drop-preamble)

  pub split_sections-preamble :
      (b : Bound) (bs : List Bound)
      → split_sections raw ≡ ok (b ∷ bs)
      → take b.start raw ≡ (sections_of (lines_of raw)).0
  split_sections-preamble b bs e =
      let start = place-head _ (sections_of (lines_of raw)).1 (split_sections-place (b ∷ bs) e) in
      rw start (
        ap (take (length (sections_of (lines_of raw)).0)) (sym (sections_of-raw raw))
        ∙ take-length-append (sections_of (lines_of raw)).0 _)

scan_lines-err_iff :
    (total offset : ℕ) (lines : List GoString) (bounds : List Bound)
    → (scan_lines total offset lines bounds ≡ err combined_diff)
      ↔ Any
          (λ line.
            (has_prefix line section_marker ≡ false) × (has_prefix line combined_marker ≡ true))
          lines
unfolding scan_lines
scan_lines-err_iff total offset [] bounds = ground arith
scan_lines-err_iff total offset (line ∷ lines) bounds =
    let next = if opens line then open_section bounds offset total else bounds in
    ground (arith, scan_lines-err_iff total (offset + length line) lines next)
