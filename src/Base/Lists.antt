-- ===== src/Base/Lists.antt =====
-- Lists measured by native numbers, tests and predicates over lists, and stable filtering.
use Prim.Native.Nat.{ℕ, zero, suc, ◌+◌, ◌-◌, ◌≤◌}
use mathlib.Core.Path.{◌≡◌, refl, sym, subst, ap}
use mathlib.Core.Logic.{◌↔◌, ◌⊎◌, inl, inr}
use mathlib.Core.Bool.{Bool, true, false, not, ◌&&◌, ◌||◌}
use mathlib.Core.List.{List, [], ◌∷◌, ◌++◌, Memᴰ, map}
use mathlib.Core.List.Memᴰ
use mathlib.Core.List.Memᴰ.{head, tail}
use native.Mathlib.Nat.{zero-add, suc-add}
use native.Mathlib.Omega.{arith}
use nit.Base.Tests.{if◌then◌else◌, Bool-cases}

module _ {ℓ} {A : Type ℓ} where
  abbrev pub length : List A → ℕ
  length [] = 0
  length (x ∷ xs) = suc (length xs)

  pub length-append : (xs ys : List A) → length (xs ++ ys) ≡ length xs + length ys
  length-append [] ys = omega arith
  length-append (x ∷ xs) ys = omega (arith, length-append xs ys)

  abbrev pub take : ℕ → List A → List A
  take zero xs = []
  take (suc n) [] = []
  take (suc n) (x ∷ xs) = x ∷ take n xs

  abbrev pub drop : ℕ → List A → List A
  drop zero xs = xs
  drop (suc n) [] = []
  drop (suc n) (x ∷ xs) = drop n xs

  pub take-append-drop : (n : ℕ) (xs : List A) → take n xs ++ drop n xs ≡ xs
  take-append-drop zero xs = refl
  take-append-drop (suc n) [] = refl
  take-append-drop (suc n) (x ∷ xs) = rw (take-append-drop n xs)

  pub length-take : (n : ℕ) (xs : List A) → n ≤ length xs → length (take n xs) ≡ n
  length-take zero xs h = refl
  length-take (suc n) [] h = omega (arith, h)
  length-take (suc n) (x ∷ xs) h = omega (arith, length-take n xs (omega (arith, h)))

  pub length-drop : (n : ℕ) (xs : List A) → length (drop n xs) ≡ length xs - n
  length-drop zero xs = omega arith
  length-drop (suc n) [] = omega arith
  length-drop (suc n) (x ∷ xs) = omega (arith, length-drop n xs)

  pub take-length-append : (xs ys : List A) → take (length xs) (xs ++ ys) ≡ xs
  take-length-append [] ys = refl
  take-length-append (x ∷ xs) ys = ap (◌∷◌ x) (take-length-append xs ys)

  pub drop-length-append : (xs ys : List A) → drop (length xs) (xs ++ ys) ≡ ys
  drop-length-append [] ys = refl
  drop-length-append (x ∷ xs) ys = drop-length-append xs ys

  pub drop-add : (m n : ℕ) (xs : List A) → drop (m + n) xs ≡ drop n (drop m xs)
  drop-add zero n xs = rw zero-add
  drop-add (suc m) n [] = rw suc-add (drop-nil n)
    where
      drop-nil : (k : ℕ) → [] ≡ drop k []
      drop-nil zero = refl
      drop-nil (suc k) = refl
  drop-add (suc m) n (x ∷ xs) = rw suc-add (drop-add m n xs)

  abbrev pub is_empty : List A → Bool
  is_empty [] = true
  is_empty (x ∷ xs) = false

  abbrev pub any : (A → Bool) → List A → Bool
  any p [] = false
  any p (x ∷ xs) = p x || any p xs

  abbrev pub all : (A → Bool) → List A → Bool
  all p [] = true
  all p (x ∷ xs) = p x && all p xs

  -- The elements that pass a test, in order.
  abbrev pub keep : (A → Bool) → List A → List A
  keep p [] = []
  keep p (x ∷ xs) = if p x then x ∷ keep p xs else keep p xs

  pub keep-append : (p : A → Bool) (xs ys : List A) → keep p (xs ++ ys) ≡ keep p xs ++ keep p ys
  keep-append p [] ys = refl
  keep-append p (x ∷ xs) ys = ground (arith, keep-append p xs ys)

-- A predicate by recursion computes to tuples and sums, which the tactics read and build.
module _ {ℓ} {A : Type ℓ} (P : A → Type 0) where
  abbrev pub All : List A → Type 0
  All [] = Unit
  All (x ∷ xs) = P x × All xs

  -- Some element has the property; the element is at hand.
  abbrev pub Any : List A → Type 0
  Any [] = ⊥
  Any (x ∷ xs) = P x ⊎ Any xs

  pub All-append : (xs ys : List A) → All xs → All ys → All (xs ++ ys)
  All-append [] ys hx hy = hy
  All-append (x ∷ xs) ys hx hy = (hx.0, All-append xs ys hx.1 hy)

  pub All_of_mem : {x : A} {xs : List A} → Memᴰ x xs → All xs → P x
  All_of_mem (head e) h = subst P (sym e) h.0
  All_of_mem (tail m) h = All_of_mem m h.1

  pub Any-of_mem : {x : A} {xs : List A} → Memᴰ x xs → P x → Any xs
  Any-of_mem (head e) h = inl (subst P e h)
  Any-of_mem (tail m) h = inr (Any-of_mem m h)

  pub mem_of_Any : (xs : List A) → Any xs → (x : A) × Memᴰ x xs × P x
  mem_of_Any [] h = elim h [ ]
  mem_of_Any (x ∷ xs) (inl h) = (x, head refl, h)
  mem_of_Any (x ∷ xs) (inr h) = let (y, m, p) = mem_of_Any xs h in (y, tail m, p)

-- The same elements, in any order and any number of times.
abbrev pub SameMembers {ℓ} : {A : Type ℓ} → List A → List A → Type ℓ
SameMembers {A} xs ys = (x : A) → Memᴰ x xs ↔ Memᴰ x ys

pub Any-of_SameMembers {ℓ} :
    {A : Type ℓ} (P : A → Type 0) (xs ys : List A) → SameMembers xs ys → Any P xs ↔ Any P ys
Any-of_SameMembers P xs ys same = (
  λ h. let (x, m, p) = mem_of_Any P xs h in Any-of_mem P ((same x).0 m) p,
  λ h. let (x, m, p) = mem_of_Any P ys h in Any-of_mem P ((same x).1 m) p,
)

module _ {ℓ} {A : Type ℓ} where
  pub any_iff : (p : A → Bool) (xs : List A) → (any p xs ≡ true) ↔ Any (λ x. p x ≡ true) xs
  any_iff p [] = ground arith
  any_iff p (x ∷ xs) = ground (arith, any_iff p xs)

  pub all_iff : (p : A → Bool) (xs : List A) → (all p xs ≡ true) ↔ All (λ x. p x ≡ true) xs
  all_iff p [] = ground arith
  all_iff p (x ∷ xs) = ground (arith, all_iff p xs)

module _ {ℓ} {A : Type ℓ} where
  pub All-zip :
      (P Q R : A → Type 0)
      → ((x : A) → P x → Q x → R x)
      → (xs : List A) → All P xs
      → All Q xs
      → All R xs
  All-zip P Q R f [] hp hq = tt
  All-zip P Q R f (x ∷ xs) (p, hp) (q, hq) = (f x p q, All-zip P Q R f xs hp hq)

  pub keep_congr : (p q : A → Bool) (xs : List A) → All (λ x. p x ≡ q x) xs → keep p xs ≡ keep q xs
  keep_congr p q [] h = refl
  keep_congr p q (x ∷ xs) (e, h) = ground (arith, keep_congr p q xs h)

  pub All-keep : (p : A → Bool) (xs : List A) → All (λ x. p x ≡ true) (keep p xs)
  All-keep p [] = tt
  All-keep p (x ∷ xs) = elim (Bool-cases (p x)) [
    | inl passes ↦ rw passes (passes, All-keep p xs)
    | inr fails ↦ rw fails (All-keep p xs)
  ]

  -- Nothing fails the test exactly when all pass it.
  pub keep_none :
      (p : A → Bool) (xs : List A) → keep (λ x. not (p x)) xs ≡ [] → All (λ x. p x ≡ true) xs
  keep_none p [] h = tt
  keep_none p (x ∷ xs) h = elim (Bool-cases (p x)) [
    | inl passes ↦ (passes, keep_none p xs (ground arith))
    | inr fails ↦ absurd (ground arith)
  ]

  pub keep_of_All : (p : A → Bool) (xs : List A) → All (λ x. p x ≡ true) xs → keep p xs ≡ xs
  keep_of_All p [] h = refl
  keep_of_All p (x ∷ xs) (e, h) = rw e (ap (◌∷◌ x) (keep_of_All p xs h))

  pub keep-not_of_All :
      (p : A → Bool) (xs : List A) → All (λ x. p x ≡ true) xs → keep (λ x. not (p x)) xs ≡ []
  keep-not_of_All p [] h = refl
  keep-not_of_All p (x ∷ xs) (e, h) = rw e (keep-not_of_All p xs h)

  pub is_empty_iff : (xs : List A) → (is_empty xs ≡ true) ↔ (xs ≡ [])
  is_empty_iff [] = (λ _. refl, λ _. refl)
  is_empty_iff (x ∷ xs) = (λ h. cc, λ h. cc)

  pub all-map {κ} :
      {B : Type κ} (p : B → Bool) (f : A → B) (xs : List A)
      → all p (map f xs) ≡ all (λ x. p (f x)) xs
  all-map p f [] = refl
  all-map p f (x ∷ xs) = rw (all-map p f xs)

module _ {ℓ} {A : Type ℓ} where
  pub Memᴰ-cons : (a x : A) (xs : List A) → Memᴰ a (x ∷ xs) ↔ ((a ≡ x) ⊎ Memᴰ a xs)
  Memᴰ-cons a x xs = (Memᴰ.cases_cons, λ s. elim s [ inl e ↦ head e | inr m ↦ tail m ])

  pub Memᴰ-append : (a : A) (xs ys : List A) → Memᴰ a (xs ++ ys) ↔ (Memᴰ a xs ⊎ Memᴰ a ys)
  Memᴰ-append a xs ys = (
    λ m. Memᴰ.append_cases xs m,
    λ s. elim s [ inl m ↦ Memᴰ.append_left ys m | inr m ↦ Memᴰ.append_right xs m ],
  )

pub mem-keep :
    {A : Type 0} (p : A → Bool) (xs : List A) {x : A}
    → Memᴰ x (keep p xs)
    → Memᴰ x xs × (p x ≡ true)
mem-keep p [] m = elim m [ ]
mem-keep p (y ∷ xs) {x} m = elim (Bool-cases (p y)) [
  | inl passes ↦
      elim (Memᴰ.cases_cons
        (subst (λ b. Memᴰ x (if b then y ∷ keep p xs else keep p xs)) passes m)) [
          | inl e ↦ (head e, subst (λ z. p z ≡ true) (sym e) passes)
          | inr later ↦ let (there, same) = mem-keep p xs later in (tail there, same)
        ]
  | inr fails ↦
      let (there, same) =
        mem-keep p xs (subst (λ b. Memᴰ x (if b then y ∷ keep p xs else keep p xs)) fails m) in
      (tail there, same)
]

pub mem-map :
    {A B : Type 0} (f : A → B) (xs : List A) {y : B}
    → Memᴰ y (map f xs)
    → (x : A) × Memᴰ x xs × (y ≡ f x)
mem-map f [] m = elim m [ ]
mem-map f (x ∷ xs) (head e) = (x, head refl, e)
mem-map f (x ∷ xs) (tail m) = let (x', there, same) = mem-map f xs m in (x', tail there, same)

-- A second filter that the first implies filters nothing.
pub keep-keep {ℓ} :
    {A : Type ℓ} (p s : A → Bool) (xs : List A)
    → ((x : A) → p x ≡ true → s x ≡ true)
    → keep p (keep s xs) ≡ keep p xs
keep-keep p s [] h = refl
keep-keep p s (x ∷ xs) h = let here = h x in let rest = keep-keep p s xs h in ground arith
