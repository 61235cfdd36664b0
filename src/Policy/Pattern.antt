-- ===== src/Policy/Pattern.antt =====
-- pkg/policy/pattern.go: path and ref patterns. The glob matcher github.com/bmatcuk/doublestar is
-- not under this repository, and is the parameter `Doublestar`.
use mathlib.Core.List.{[], ◌∷◌, ◌++◌}
use mathlib.Core.Bool.{Bool, true, false, not, ◌&&◌, ◌||◌}
use mathlib.Core.Option.{Option, none, some}
use Prim.Native.Nat.{ℕ, suc}
use nit.Base.{
  GoString, ◌==◌, text, any, has_prefix, contains, ends_with, drop_last, split, nat_eq,
  if◌then◌else◌, Result, ok, err, refuse_if, ◌>>◌,
}

-- doublestar.ValidatePattern and doublestar.Match; `none` is the error ErrBadPattern.
pub record Doublestar : Type 0 where
  pub validate_pattern : GoString → Bool
  pub match : GoString → GoString → Option Bool

pub record Pattern : Type 0 where
  pub raw : GoString
  pub glob : GoString
  pub dir : GoString

pub data PatternError : Type 0 where
  empty_pattern : PatternError
  not_relative : GoString → PatternError
  backslash : GoString → PatternError
  empty_segment : GoString → PatternError
  dot_segment : GoString → PatternError
  invalid_glob : GoString → PatternError

abbrev pub match_all : Pattern
match_all = record { raw = text "**"; glob = text "**"; dir = [] }

unfoldable pub is_dot_segment : GoString → Bool
is_dot_segment seg = seg == text ".." || seg == text "."

-- The pattern before the glob is validated: a trailing slash marks a subtree.
unfoldable pub shape : GoString → Pattern
shape s =
    if ends_with s b'/'
    then record { raw = s; glob = drop_last s ++ text "/**"; dir = drop_last s }
    else record { raw = s; glob = s; dir = [] }

-- strings.IndexAny, or the length where no byte of `chars` occurs.
unfoldable pub prefix_before : GoString → GoString → ℕ
prefix_before [] chars = 0
prefix_before (c ∷ s) chars =
    let rest = suc (prefix_before s chars) in if any (λ m. nat_eq c m) chars then 0 else rest

unfoldable pub specificity : Pattern → ℕ
specificity p = prefix_before p.glob (text "*?[{")

unfoldable pub is_subtree : Pattern → Bool
is_subtree p = not (p.dir == [])

module _ ⦃ds : Doublestar⦄ where
  unfoldable pub parse_pattern : GoString → Result PatternError Pattern
  unfolding shape is_dot_segment
  parse_pattern s = do
    refuse_if (s == []) empty_pattern
    refuse_if (has_prefix s (text "/")) (not_relative s)
    refuse_if (contains s (text "\\")) (backslash s)
    refuse_if (contains s (text "//")) (empty_segment s)
    refuse_if (any is_dot_segment (split s b'/')) (dot_segment s)
    let p = shape s
    refuse_if (not (ds.validate_pattern p.glob)) (invalid_glob s)
    refuse_if (not (p.dir == []) && not (ds.validate_pattern p.dir)) (invalid_glob s)
    ok p

  -- `none` is the panic on an invalid pattern.
  unfoldable pub must_parse_pattern : GoString → Option Pattern
  must_parse_pattern s = elim (parse_pattern s) [ ok p ↦ some p | err e ↦ none ]

  -- `ok && err == nil` of doublestar.Match.
  unfoldable pub glob_hits : GoString → GoString → Bool
  glob_hits glob path = elim (ds.match glob path) [ none ↦ false | some hit ↦ hit ]

  unfoldable pub matches : Pattern → GoString → Bool
  unfolding glob_hits
  matches p path =
      if p.glob == [] || path == []
      then false
      else if not (p.dir == []) && glob_hits p.dir path
      then true
      else glob_hits p.glob path
