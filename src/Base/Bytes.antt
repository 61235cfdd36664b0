-- ===== src/Base/Bytes.antt =====
-- Go strings and byte slices, as lists of bytes, with Go's equality, order and prefix tests.
use Prim.Native.Nat.{ℕ, zero, suc, ◌+◌, ◌/◌, ◌%◌}
use Prim.Native.Char.{code}
use Prim.Native.String.{String}
use mathlib.Core.Path.{◌≡◌, refl}
use mathlib.Core.Logic.{◌⊎◌, inl, inr}
use mathlib.Core.Bool.{Bool, true, false, ◌&&◌, ◌||◌}
use mathlib.Core.List.{List, [], ◌∷◌, ◌++◌}
use native.Mathlib.Decide.{ℕ_discrete}
use native.Mathlib.Omega.{arith}
use nit.Base.Tests.{ltb, nat_eq, if◌then◌else◌}

-- A Go string is a sequence of bytes.
abbrev pub GoString : Type 0
GoString = List ℕ

-- A literal. The code points of a text are its bytes, if it is ASCII.
abbrev pub text : String → GoString
text (String.◌∷◌ first rest) = code first ∷ text rest
text String.[] = []

pub GoString-discrete : Discrete GoString
GoString-discrete = hlevel ℕ_discrete

unfoldable pub str_discrete : Discrete GoString
unfolding GoString-discrete ℕ_discrete
str_discrete = GoString-discrete

infix 50 ◌==◌
abbrev pub ◌==◌ : GoString → GoString → Bool
s == t = elim (str_discrete s t) [ yes _ ↦ true | no _ ↦ false ]

-- `s < t` on strings: byte by byte, a proper prefix first.
unfoldable pub str_ltb : GoString → GoString → Bool
str_ltb s [] = false
str_ltb [] (y ∷ t) = true
str_ltb (x ∷ s) (y ∷ t) = ltb x y || (nat_eq x y && str_ltb s t)

pub str_ltb_irrefl : (s : GoString) → str_ltb s s ≡ false
unfolding str_ltb
str_ltb_irrefl [] = refl
str_ltb_irrefl (x ∷ s) = ground (arith, str_ltb_irrefl s)

pub str_ltb_trans :
    (s t u : GoString) → str_ltb s t ≡ true → str_ltb t u ≡ true → str_ltb s u ≡ true
unfolding str_ltb
str_ltb_trans [] [] u h k = cc
str_ltb_trans [] (y ∷ t) [] h k = cc
str_ltb_trans [] (y ∷ t) (z ∷ u) h k = refl
str_ltb_trans (x ∷ s) [] u h k = cc
str_ltb_trans (x ∷ s) (y ∷ t) [] h k = cc
str_ltb_trans (x ∷ s) (y ∷ t) (z ∷ u) h k = ground (arith, str_ltb_trans s t u)

pub str_ltb_total : (s t : GoString) → (str_ltb s t ≡ true) ⊎ ((s ≡ t) ⊎ (str_ltb t s ≡ true))
unfolding str_ltb
str_ltb_total [] [] = inr (inl refl)
str_ltb_total [] (y ∷ t) = inl refl
str_ltb_total (x ∷ s) [] = inr (inr refl)
str_ltb_total (x ∷ s) (y ∷ t) = ground (arith, str_ltb_total s t)

-- strings.HasPrefix and bytes.HasPrefix.
unfoldable pub has_prefix : GoString → GoString → Bool
has_prefix s [] = true
has_prefix [] (p ∷ ps) = false
has_prefix (c ∷ s) (p ∷ ps) = nat_eq c p && has_prefix s ps

-- strings.Contains, for a separator that is not empty.
unfoldable pub contains : GoString → GoString → Bool
unfolding has_prefix
contains [] sub = has_prefix [] sub
contains (c ∷ s) sub = has_prefix (c ∷ s) sub || contains s sub

-- strings.HasSuffix with a one-byte suffix.
unfoldable pub ends_with : GoString → ℕ → Bool
ends_with [] b = false
ends_with (c ∷ []) b = nat_eq c b
ends_with (c ∷ d ∷ s) b = ends_with (d ∷ s) b

-- The string without its last byte: strings.TrimSuffix where the one-byte suffix is there.
unfoldable pub drop_last : GoString → GoString
drop_last [] = []
drop_last (c ∷ []) = []
drop_last (c ∷ d ∷ s) = c ∷ drop_last (d ∷ s)

-- strings.Split and strings.SplitSeq at one byte: `cur` is the segment read so far.
unfoldable pub split_from : GoString → ℕ → GoString → List GoString
split_from cur sep [] = cur ∷ []
split_from cur sep (c ∷ s) =
    let closed = split_from [] sep s in
    let longer = split_from (cur ++ c ∷ []) sep s in if nat_eq c sep then cur ∷ closed else longer

abbrev pub split : GoString → ℕ → List GoString
split s sep = split_from [] sep s

-- The decimal digits of a number below 10 ^ fuel.
unfoldable pub digits : ℕ → ℕ → GoString
digits zero n = []
digits (suc fuel) n =
    let rest = digits fuel (n / 10) in
    if ltb n 10 then (48 + n) ∷ [] else rest ++ (48 + n % 10) ∷ []
