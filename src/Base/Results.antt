-- ===== src/Base/Results.antt =====
-- A Go result `(value, error)` whose value is used only when the error is nil.
use mathlib.Core.Path.{◌≡◌, refl}
use mathlib.Core.Logic.{◌⊎◌, inl, inr}
use mathlib.Core.Bool.{Bool, true, false}

pub data Result {ℓ} (E : Type 0) (A : Type ℓ) : Type ℓ where
  err : E → Result E A
  ok : A → Result E A

infixl 5 ◌>>◌
-- `if err != nil { return err }`, and then the rest of the function.
module _ {ℓ κ} {E : Type 0} {A : Type ℓ} {B : Type κ} where
  infixl 5 ◌>>=◌
  abbrev pub ◌>>=◌ : Result E A → (A → Result E B) → Result E B
  err fault >>= rest = err fault
  ok value >>= rest = rest value

abbrev pub ◌>>◌ {κ} : {E : Type 0} {B : Type κ} → Result E (Unit {0}) → Result E B → Result E B
step >> rest = step >>= λ done. rest

-- `if refused { return err }`.
abbrev pub refuse_if : {E : Type 0} → Bool → E → Result E (Unit {0})
refuse_if true e = err e
refuse_if false e = ok tt

-- A function that returned a value had one from its first step.
pub >>=-eq-ok {ℓ κ} :
    {E : Type 0} {A : Type ℓ} {B : Type κ} (step : Result E A) (rest : A → Result E B) {out : B}
    → (step >>= rest) ≡ ok out
    → (mid : A) × (step ≡ ok mid) × (rest mid ≡ ok out)
>>=-eq-ok (err fault) rest e = cc
>>=-eq-ok (ok mid) rest e = (mid, refl, e)

-- The same with the rest of a proof, which sees the value as a variable.
pub >>=-ok_cases {ℓ κ μ} :
    {E : Type 0} {A : Type ℓ} {B : Type κ} {P : Type μ} (step : Result E A) (rest : A → Result E B)
    {out : B}
    → (step >>= rest) ≡ ok out
    → ((mid : A) → step ≡ ok mid → rest mid ≡ ok out → P)
    → P
>>=-ok_cases (err fault) rest e proof = absurd cc
>>=-ok_cases (ok mid) rest e proof = proof mid refl e

pub ok-injective {ℓ} :
    {E : Type 0} {A : Type ℓ} {a b : A} → ◌≡◌ {A = Result E A} (ok a) (ok b) → a ≡ b
ok-injective e = cc

abbrev pub IsOk {ℓ} : {E : Type 0} {A : Type ℓ} → Result E A → Type 0
IsOk (ok a) = Unit
IsOk (err e) = ⊥

module _ {ℓ} {E : Type 0} {A : Type ℓ} where
  -- The value of a result that is no error.
  abbrev pub value : (r : Result E A) → IsOk r → A
  value (ok a) h = a
  value (err e) h = absurd h

  pub value_lem : (r : Result E A) (h : IsOk r) → r ≡ ok (value r h)
  value_lem (ok a) h = refl
  value_lem (err e) h = absurd h

pub Result-cases {ℓ} :
    {E : Type 0} {A : Type ℓ} (r : Result E A) → ((e : E) × (r ≡ err e)) ⊎ ((a : A) × (r ≡ ok a))
Result-cases (err e) = inl (e, refl)
Result-cases (ok a) = inr (a, refl)
