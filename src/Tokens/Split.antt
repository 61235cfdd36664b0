-- ===== src/Tokens/Split.antt =====
-- strings.Split at one byte: parts without the byte, and the text that parts come from.
use mathlib.Core.List.{List, [], ◌∷◌, ◌++◌, append_assoc, append-nil}
use nit.Base.{◌≡◌, ◌≢◌, ℕ, refl, arith, GoString, split_from, split, All}

-- The parts with the byte between them.
unfoldable pub join : ℕ → List GoString → GoString
join sep [] = []
join sep (p ∷ []) = p
join sep (p ∷ q ∷ ps) = p ++ sep ∷ join sep (q ∷ ps)

-- A part that lacks the byte ends at the byte.
split_from-part :
    (sep : ℕ) (cur a b : GoString)
    → All (λ x. x ≢ sep) a
    → split_from cur sep (a ++ sep ∷ b) ≡ (cur ++ a) ∷ split b sep
unfolding split_from
split_from-part sep cur [] b h = ground (arith, append-nil cur)
split_from-part sep cur (x ∷ a) b (ne, h) =
    let rest = split_from-part sep (cur ++ x ∷ []) a b h in
    ground (arith, append_assoc cur (x ∷ []) a)

split_from-last :
    (sep : ℕ) (cur a : GoString) → All (λ x. x ≢ sep) a → split_from cur sep a ≡ (cur ++ a) ∷ []
unfolding split_from
split_from-last sep cur [] h = ground (arith, append-nil cur)
split_from-last sep cur (x ∷ a) (ne, h) =
    let rest = split_from-last sep (cur ++ x ∷ []) a h in
    ground (arith, append_assoc cur (x ∷ []) a)

join-cons :
    (sep : ℕ) (p : GoString) (ps : List GoString)
    → ps ≢ []
    → join sep (p ∷ ps) ≡ p ++ sep ∷ join sep ps
unfolding join
join-cons sep p [] h = absurd (h refl)
join-cons sep p (q ∷ ps) h = refl

split_from_nonempty : (sep : ℕ) (cur s : GoString) → split_from cur sep s ≢ []
unfolding split_from
split_from_nonempty sep cur [] e = cc
split_from_nonempty sep cur (x ∷ s) e =
    let rest = split_from_nonempty sep (cur ++ x ∷ []) s in ground arith

-- Splitting loses nothing.
join-split_from : (sep : ℕ) (cur s : GoString) → join sep (split_from cur sep s) ≡ cur ++ s
unfolding split_from join
join-split_from sep cur [] = ground (arith, append-nil cur)
join-split_from sep cur (x ∷ s) =
    let longer = join-split_from sep (cur ++ x ∷ []) s in
    let closed = join-split_from sep [] s in
    let here = join-cons sep cur (split_from [] sep s) (split_from_nonempty sep [] s) in
    ground (arith, append_assoc cur (x ∷ []) s)

pub join-split : (sep : ℕ) (s : GoString) → join sep (split s sep) ≡ s
join-split sep s = join-split_from sep [] s

pub split-part :
    (sep : ℕ) (a b : GoString) → All (λ x. x ≢ sep) a → split (a ++ sep ∷ b) sep ≡ a ∷ split b sep
split-part sep a b h = split_from-part sep [] a b h

pub split-last : (sep : ℕ) (a : GoString) → All (λ x. x ≢ sep) a → split a sep ≡ a ∷ []
split-last sep a h = split_from-last sep [] a h
