-- ===== src/Base/Framing.antt =====
-- Length-prefixed writing, as the hashes of pkg/policy/profile.go and pkg/pullcache/pullcache.go
-- frame their parts: the length in decimal, a colon, the bytes. What was written can be read back.
use Prim.Native.Nat.{ℕ, zero, suc, ◌+◌, ◌*◌, ◌-◌, ◌/◌, ◌%◌, ◌<◌}
use mathlib.Core.Path.{◌≡◌, refl, sym, ap, ◌∙◌}
use mathlib.Core.Logic.{◌≢◌, inl, inr}
use mathlib.Core.List.{List, [], ◌∷◌, ◌++◌, append_assoc}
use native.Mathlib.Omega.{arith}
use nit.Base.Tests.{ltb, Bool-cases}
use nit.Base.Bytes.{GoString, digits}
use nit.Base.Lists.{length, All, All-append}

-- strconv.Itoa of a number that is not negative: it has at most as many digits as its value, plus
-- one.
unfoldable pub itoa : ℕ → GoString
itoa n = digits (suc n) n

-- The three writes of one part.
unfoldable pub frame : GoString → GoString
unfolding itoa
frame s = itoa (length s) ++ (58 ∷ s)

unfoldable pub frames : List GoString → GoString
unfolding frame
frames [] = []
frames (s ∷ parts) = frame s ++ frames parts

-- The number that a list of digits denotes, after one already read.
value_from : ℕ → GoString → ℕ
value_from acc [] = acc
value_from acc (c ∷ s) = value_from (acc * 10 + (c - 48)) s

value_from-append :
    (acc : ℕ) (s t : GoString) → value_from acc (s ++ t) ≡ value_from (value_from acc s) t
unfolding value_from
value_from-append acc [] t = refl
value_from-append acc (c ∷ s) t = value_from-append (acc * 10 + (c - 48)) s t

value_from-digits : (fuel n : ℕ) → n < fuel → value_from 0 (digits fuel n) ≡ n
unfolding value_from digits
value_from-digits zero n h = absurd (omega (arith, h))
value_from-digits (suc fuel) n h = elim (Bool-cases (ltb n 10)) [
  | inl small ↦ rw small (ground arith)
  | inr large ↦
      let smaller : n / 10 < fuel = ground arith in
      rw
        (
          large,
          value_from-append 0 (digits fuel (n / 10)) ((48 + n % 10) ∷ []),
          value_from-digits fuel (n / 10) smaller,
        )
        (ground arith)
]

digits_no_colon : (fuel n : ℕ) → All (λ c. c ≢ 58) (digits fuel n)
unfolding digits
digits_no_colon zero n = tt
digits_no_colon (suc fuel) n = elim (Bool-cases (ltb n 10)) [
  | inl small ↦ rw small (ground arith)
  | inr large ↦ rw large (
      All-append (λ c. c ≢ 58) (digits fuel (n / 10)) ((48 + n % 10) ∷ [])
        (digits_no_colon fuel (n / 10)) (ground arith))
]

pub itoa-injective : (m n : ℕ) → itoa m ≡ itoa n → m ≡ n
unfolding itoa
itoa-injective m n e =
    sym (value_from-digits (suc m) m (omega arith))
    ∙ ap (value_from 0) e
    ∙ value_from-digits (suc n) n (omega arith)

-- Both texts end at their first colon.
colon_splits :
    (s t u v : GoString)
    → All (λ c. c ≢ 58) s
    → All (λ c. c ≢ 58) t
    → s ++ (58 ∷ u) ≡ t ++ (58 ∷ v)
    → (s ≡ t) × (u ≡ v)
colon_splits [] [] u v hs ht e = ground arith
colon_splits [] (y ∷ t) u v hs ht e = absurd (ground arith)
colon_splits (x ∷ s) [] u v hs ht e = absurd (ground arith)
colon_splits (x ∷ s) (y ∷ t) u v hs ht e =
    let rest = colon_splits s t u v hs.1 ht.1 (ground arith) in ground arith

pub append-injective {ℓ} :
    {A : Type ℓ} (s t u v : List A) → length s ≡ length t → s ++ u ≡ t ++ v → (s ≡ t) × (u ≡ v)
append-injective [] [] u v h e = (refl, e)
append-injective [] (y ∷ t) u v h e = absurd (omega (arith, h))
append-injective (x ∷ s) [] u v h e = absurd (omega (arith, h))
append-injective (x ∷ s) (y ∷ t) u v h e =
    let rest = append-injective s t u v (ground arith) (ground arith) in ground arith

-- A framed part and what follows it are determined by the bytes.
pub frame-append_injective : (s t u v : GoString) → frame s ++ u ≡ frame t ++ v → (s ≡ t) × (u ≡ v)
unfolding frame itoa
frame-append_injective s t u v e =
    let (lengths, rest) =
      colon_splits (itoa (length s)) (itoa (length t)) (s ++ u) (t ++ v) (digits_no_colon _ _)
        (digits_no_colon _ _)
        (sym (append_assoc (itoa (length s)) (58 ∷ s) u)
          ∙ e
          ∙ append_assoc (itoa (length t)) (58 ∷ t) v) in
    append-injective s t u v (itoa-injective (length s) (length t) lengths) rest

frame_nonempty : (s u : GoString) → frame s ++ u ≢ []
unfolding frame itoa
frame_nonempty s u e = go (itoa (length s)) e
  where
    go : (d : GoString) → (d ++ (58 ∷ s)) ++ u ≢ []
    go [] e = absurd (ground arith)
    go (x ∷ d) e = absurd (ground arith)

pub frames-injective : (ss ts : List GoString) → frames ss ≡ frames ts → ss ≡ ts
unfolding frames
frames-injective [] [] e = refl
frames-injective [] (t ∷ ts) e = absurd (frame_nonempty t (frames ts) (sym e))
frames-injective (s ∷ ss) [] e = absurd (frame_nonempty s (frames ss) e)
frames-injective (s ∷ ss) (t ∷ ts) e =
    let (here, rest) = frame-append_injective s t (frames ss) (frames ts) e in
    let there = frames-injective ss ts rest in cc
