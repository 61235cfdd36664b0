-- ===== src/Patch/RoundTrip.antt =====
-- What `Parse` returns, and that rendering every section gives the patch back.
use mathlib.Core.List.{List, [], ◌∷◌, ◌++◌, map, flatten}
use mathlib.Core.Path.{ap₂}
use nit.Base.{
  ℕ, suc, ◌≡◌, ◌≢◌, refl, sym, ap, ◌∙◌, true, GoString, arith, ok, ok-injective, >>=-eq-ok, keep,
  is_empty, if◌then◌else◌,
}
use nit.Patch.Change.{Change}
use nit.Patch.Sections.{Bound, lines_of, split_sections}
use nit.Patch.Parse.{Gitdiff, ChangeSet, slice, parse_section, parse_sections, parse_bounds, parse}
use nit.Patch.Render.{render, concat_raw}
use nit.Patch.Bounds.{sections_of, sections_of-raw, split_sections-slice, split_sections-preamble}

-- i, i + 1, and so on, one for each element.
abbrev pub IsNumberedFrom : ℕ → List Change → Type 0
IsNumberedFrom i [] = Unit
IsNumberedFrom i (c ∷ cs) = (c.index ≡ i) × IsNumberedFrom (suc i) cs

concat_raw-flatten : (cs : List Change) → concat_raw cs ≡ flatten (map (λ c. c.raw) cs)
unfolding flatten
concat_raw-flatten [] = refl
concat_raw-flatten (c ∷ cs) = ap (λ t. c.raw ++ t) (concat_raw-flatten cs)

keep_all : (cs : List Change) → keep (λ c. true) cs ≡ cs
keep_all [] = refl
keep_all (c ∷ cs) = ap (◌∷◌ c) (keep_all cs)

cons-ne-nil {ℓ} : {A : Type ℓ} {x : A} {xs : List A} → (x ∷ xs) ≢ []
cons-ne-nil e = cc

else_of_ne_nil :
    (cs : List Change) (out : GoString) → cs ≢ [] → (if is_empty cs then [] else out) ≡ out
else_of_ne_nil [] out h = absurd (h refl)
else_of_ne_nil (c ∷ cs) out h = refl

module _ ⦃gd : Gitdiff⦄ where
  parse_section-raw :
      (i : ℕ) (section : GoString) (c : Change)
      → parse_section i section ≡ ok c
      → (c.raw ≡ section) × (c.index ≡ i)
  unfolding parse_section
  parse_section-raw i section c e = ground arith

  parse_sections-raw :
      (raw : GoString) (i : ℕ) (bs : List Bound) (cs : List Change)
      → parse_sections raw i bs ≡ ok cs
      → (map (λ c. c.raw) cs ≡ map (slice raw) bs) × IsNumberedFrom i cs
  unfolding parse_sections
  parse_sections-raw raw i [] cs e = rw (← ok-injective e) (refl, tt)
  parse_sections-raw raw i (b ∷ bs) cs e =
      let (c, first, e') = >>=-eq-ok (parse_section i (slice raw b)) _ e in
      let (cs', rest, e'') = >>=-eq-ok (parse_sections raw (suc i) bs) _ e' in
      let (raw_c, index_c) = parse_section-raw i (slice raw b) c first in
      let (raw_cs, numbered) = parse_sections-raw raw (suc i) bs cs' rest in
      rw (← ok-injective e'') (ap₂ ◌∷◌ raw_c raw_cs, (index_c, numbered))

  -- The parts of a parsed set.
  pub record IsParseOf (input : GoString) (s : ChangeSet) : Type 0 where
    pub preamble : s.preamble ≡ (sections_of (lines_of input)).0
    pub sections : map (λ c. c.raw) s.changes ≡ (sections_of (lines_of input)).1
    pub numbered : IsNumberedFrom 0 s.changes
    pub not_empty : s.changes ≢ []
    pub raw : s.raw ≡ input

  parse_bounds-IsParseOf :
      (raw : GoString) (bs : List Bound) (s : ChangeSet)
      → split_sections raw ≡ ok bs
      → parse_bounds raw bs ≡ ok s
      → IsParseOf raw s
  unfolding parse_bounds
  parse_bounds-IsParseOf raw [] s found e = cc
  parse_bounds-IsParseOf raw (b ∷ bs) s found e =
      let (cs, parsed, e') = >>=-eq-ok (parse_sections raw 0 (b ∷ bs)) _ e in
      let (raws, numbered) = parse_sections-raw raw 0 (b ∷ bs) cs parsed in
      rw (← ok-injective e') (record {
        preamble = split_sections-preamble raw b bs found;
        sections = raws ∙ split_sections-slice raw (b ∷ bs) found;
        numbered = numbered;
        not_empty = λ nothing. cons-ne-nil (sym raws ∙ ap (map (λ (c : Change). c.raw)) nothing);
        raw = refl;
      })

  -- A patch that parses gives a set with the whole input as its bytes, the bytes before the first
  -- section as the preamble, and at least one change: the changes have as raw bytes the sections
  -- that the marker lines of the input make, in order, and are numbered from 0.
  pub parse-IsParseOf : (raw : GoString) (s : ChangeSet) → parse raw ≡ ok s → IsParseOf raw s
  unfolding parse
  parse-IsParseOf raw s e =
      let (bs, found, e') = >>=-eq-ok (split_sections raw) _ e in
      parse_bounds-IsParseOf raw bs s found e'

  -- Rendering every section of a parsed patch gives back the patch, byte for byte.
  pub render-parse :
      (raw : GoString) (s : ChangeSet) → parse raw ≡ ok s → render s (λ c. true) ≡ raw
  unfolding render
  render-parse raw s e =
      let p = parse-IsParseOf raw s e in
      rw
        (
          keep_all s.changes,
          else_of_ne_nil s.changes (s.preamble ++ concat_raw s.changes) p.not_empty,
        )
        (ap₂ ◌++◌ p.preamble (concat_raw-flatten s.changes ∙ ap flatten p.sections)
          ∙ sections_of-raw raw)
