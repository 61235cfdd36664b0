-- ===== src/Base/Sort.antt =====
-- sort.Slice, first matches and counts.
use Prim.Native.Nat.{◌≤◌, ℕ, zero, suc, ◌<◌}
use mathlib.Core.Path.{◌≡◌, refl, subst}
use mathlib.Core.Logic.{◌↔◌, inl, inr}
use mathlib.Core.Bool.{Bool, true, false}
use mathlib.Core.Option.{Option, none, some}
use mathlib.Core.List.{List, [], ◌∷◌, Memᴰ}
use mathlib.Core.List.Memᴰ.{head, tail}
use native.Mathlib.Omega.{arith}
use nit.Base.Tests.{if◌then◌else◌, Bool-cases}
use nit.Base.Lists.{All, All_of_mem, keep, length}

-- Go's int and time.Duration, which may be negative: `negsuc n` is -(n + 1).
pub data ℤ : Type 0 where
  pos : ℕ → ℤ
  negsuc : ℕ → ℤ

-- An option of a configuration: a value that is not positive stands for the default.
abbrev pub or_default : ℤ → ℕ → ℕ
or_default (pos zero) default = default
or_default (pos (suc n)) default = suc n
or_default (negsuc n) default = default

pub or_default_positive : (z : ℤ) (default : ℕ) → 0 < default → 0 < or_default z default
or_default_positive (pos zero) default h = h
or_default_positive (pos (suc n)) default h = omega arith
or_default_positive (negsuc n) default h = h

module _ {ℓ} {A : Type ℓ} where
  -- The first element that passes.
  unfoldable pub find : (A → Bool) → List A → Option A
  find p [] = none
  find p (x ∷ xs) = let rest = find p xs in if p x then some x else rest

  unfoldable pub count : (A → Bool) → List A → ℕ
  count p [] = 0
  count p (x ∷ xs) = let rest = count p xs in if p x then suc rest else rest

  unfoldable pub insert_by : (A → A → Bool) → A → List A → List A
  insert_by less x [] = x ∷ []
  insert_by less x (y ∷ ys) =
      let rest = insert_by less x ys in if less y x then y ∷ rest else x ∷ y ∷ ys

  -- The sorted order. Under a strict total order every correct sort gives this list.
  unfoldable pub sort_by : (A → A → Bool) → List A → List A
  sort_by less [] = []
  sort_by less (x ∷ xs) = insert_by less x (sort_by less xs)

  pub find-mem :
      (p : A → Bool) (xs : List A) {x : A} → find p xs ≡ some x → Memᴰ x xs × (p x ≡ true)
  unfolding find
  find-mem p [] h = cc
  find-mem p (y ∷ xs) h = elim (Bool-cases (p y)) [
    | inl e ↦ (head (ground arith), ground arith)
    | inr e ↦ let (m, px) = find-mem p xs (ground arith) in (tail m, px)
  ]

  pub All-keep_of_All : (P : A → Type 0) (p : A → Bool) (xs : List A) → All P xs → All P (keep p xs)
  All-keep_of_All P p [] h = tt
  All-keep_of_All P p (x ∷ xs) (hx, h) = ground (arith, All-keep_of_All P p xs h)

  -- What holds of the elements that pass holds of each element if it passes.
  pub keep-implies :
      (p : A → Bool) (Q : A → Type 0) (us : List A)
      → All Q (keep p us)
      → All (λ u. p u ≡ true → Q u) us
  keep-implies p Q [] h = tt
  keep-implies p Q (u ∷ us) h = elim (Bool-cases (p u)) [
    | inl e ↦
        let h' = subst (λ b. All Q (if b then u ∷ keep p us else keep p us)) e h in
        ((λ _. h'.0), keep-implies p Q us h'.1)
    | inr e ↦ ((λ e'. cc), keep-implies p Q us (rw e at h))
  ]

  pub count-mem : (p : A → Bool) {x : A} {xs : List A} → Memᴰ x xs → p x ≡ true → 0 < count p xs
  unfolding count
  count-mem p (head e) h = ground arith
  count-mem p {x} (tail {xs = xs} m) h = ground (arith, count-mem p m h)

  pub find-none : (p : A → Bool) (xs : List A) → find p xs ≡ none → All (λ x. p x ≡ false) xs
  unfolding find
  find-none p [] h = tt
  find-none p (y ∷ xs) h = ground (arith, find-none p xs)

  pub count_mono :
      (p q : A → Bool) (xs : List A)
      → ((x : A) → p x ≡ true → q x ≡ true)
      → count p xs < suc (count q xs)
  unfolding count
  count_mono p q [] h = omega arith
  count_mono p q (x ∷ xs) h = let hx = h x in let rest = count_mono p q xs h in ground arith

  pub count_zero : (p : A → Bool) (xs : List A) → All (λ x. p x ≡ false) xs → count p xs ≡ 0
  unfolding count
  count_zero p [] h = refl
  count_zero p (x ∷ xs) (e, h) = ground (arith, count_zero p xs h)

-- Head and elements of a sorted list, for a comparison that orders strictly and weakly.
pub record StrictWeak {ℓ} {A : Type ℓ} (less : A → A → Bool) : Type ℓ where
  pub asymmetric : (x y : A) → less x y ≡ true → less y x ≡ false
  -- What is not before `y`, where `y` is not before `z`, is not before `z`.
  pub negative : (x y z : A) → less x y ≡ false → less y z ≡ false → less x z ≡ false

module _ {ℓ} {A : Type ℓ} (less : A → A → Bool) where
  pub All-insert_by :
      (P : A → Type 0) (x : A) (ys : List A) → All P (insert_by less x ys) ↔ (P x × All P ys)
  unfolding insert_by
  All-insert_by P x [] = ground arith
  All-insert_by P x (y ∷ ys) = ground (arith, All-insert_by P x ys)

  pub All-sort_by : (P : A → Type 0) (xs : List A) → All P (sort_by less xs) ↔ All P xs
  unfolding sort_by
  All-sort_by P [] = ground arith
  All-sort_by P (x ∷ xs) = ground (arith, All-insert_by P x (sort_by less xs), All-sort_by P xs)

  -- Nothing in the list is before `x`.
  abbrev pub IsLeast : A → List A → Type 0
  IsLeast x xs = All (λ y. less y x ≡ false) xs

  abbrev pub Sorted : List A → Type 0
  Sorted [] = Unit
  Sorted (x ∷ xs) = IsLeast x xs × Sorted xs

  module _ (w : StrictWeak less) where
    IsLeast-trans : (x y : A) (zs : List A) → less y x ≡ false → IsLeast y zs → IsLeast x zs
    IsLeast-trans x y [] h l = tt
    IsLeast-trans x y (z ∷ zs) h (hz, l) = (w.negative z y x hz h, IsLeast-trans x y zs h l)

    insert_by-Sorted : (x : A) (ys : List A) → Sorted ys → Sorted (insert_by less x ys)
    unfolding insert_by
    insert_by-Sorted x [] h = (tt, tt)
    insert_by-Sorted x (y ∷ ys) (l, h) = elim (Bool-cases (less y x)) [
      | inl e ↦ rw e (
        (All-insert_by (λ z. less z y ≡ false) x ys).1 (w.asymmetric y x e, l),
        insert_by-Sorted x ys h,
      )
      | inr e ↦ rw e ((e, IsLeast-trans x y ys e l), (l, h))
    ]

    pub sort_by-Sorted : (xs : List A) → Sorted (sort_by less xs)
    unfolding sort_by
    sort_by-Sorted [] = tt
    sort_by-Sorted (x ∷ xs) = insert_by-Sorted x (sort_by less xs) (sort_by-Sorted xs)

    pub irreflexive : (x : A) → less x x ≡ false
    irreflexive x = elim (Bool-cases (less x x)) [ inl e ↦ w.asymmetric x x e | inr e ↦ e ]

    -- The head of the sorted list is a least element.
    pub sort_by-IsLeast :
        (xs : List A) {x : A} {rest : List A} → sort_by less xs ≡ x ∷ rest → IsLeast x xs
    sort_by-IsLeast xs {x} {rest} e =
        let sorted = subst Sorted e (sort_by-Sorted xs) in
        (All-sort_by (λ y. less y x ≡ false) xs).0 (rw e (irreflexive x, sorted.0))

-- Every element of a list is in it.
pub All-mem : {A : Type 0} (P : A → Type 0) (xs : List A) → ((x : A) → Memᴰ x xs → P x) → All P xs
All-mem P [] f = tt
All-mem P (x ∷ xs) f = (f x (head refl), All-mem P xs (λ y m. f y (tail m)))

-- Sorting keeps the members.
pub mem-sort_by :
    {A : Type 0} (less : A → A → Bool) (xs : List A) {x : A} → Memᴰ x (sort_by less xs) ↔ Memᴰ x xs
mem-sort_by less xs = (
  λ m.
      All_of_mem (λ y. Memᴰ y xs) m
        ((All-sort_by less (λ y. Memᴰ y xs) xs).1 (All-mem (λ y. Memᴰ y xs) xs (λ y m. m))),
  λ m.
      All_of_mem (λ y. Memᴰ y (sort_by less xs)) m
        ((All-sort_by less (λ y. Memᴰ y (sort_by less xs)) xs).0
          (All-mem (λ y. Memᴰ y (sort_by less xs)) (sort_by less xs) (λ y m. m))),
)

pub count-le-length : {A : Type 0} (p : A → Bool) (xs : List A) → count p xs ≤ length xs
unfolding count
count-le-length p [] = omega arith
count-le-length p (x ∷ xs) = ground (arith, count-le-length p xs)
