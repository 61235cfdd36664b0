-- ===== src/Policy/Groups/Depth.antt =====
-- The recursion of `detectGroupCycles` is no deeper than there are groups.
use mathlib.Core.List.{List, [], ◌∷◌, ◌++◌, Memᴰ}
use mathlib.Core.List.Memᴰ.{head, tail}
use mathlib.Core.Path.{subst}
use nit.Base.{
  count-le-length, ◌⊎◌, ◌||◌, ℕ, zero, suc, ◌≤◌, ◌<◌, ◌≡◌, ◌≢◌, refl, sym, inl, inr, Bool, true,
  false, not, some, str_discrete, str_ltb, lookup, count, count_mono, length, Bool-cases,
  Option-cases, arith, sort_by,
}
use nit.Policy.Identity.{GroupId, Group}
use nit.Policy.Groups.{
  member, out_of_fuel, Colors, Visit, done, failed, includes_at, visit_each, set_grey, blacken,
  visit, ids, detect_group_cycles,
}
use nit.Policy.Groups.Cycles.{Visit-cases, done-injective}

abbrev pub is_white : Colors → GroupId → Bool
is_white c g = not (member g c.black || member g c.grey)

count_strict :
    {A : Type 0} (p q : A → Bool) (x : A) (xs : List A)
    → ((y : A) → p y ≡ true → q y ≡ true)
    → Memᴰ x xs
    → p x ≡ false
    → q x ≡ true
    → count p xs < count q xs
unfolding count
count_strict p q x [] sub m hp hq = elim m [ ]
count_strict p q x (y ∷ ys) sub (head e) hp hq =
    let below = count_mono p q ys sub in
    let py = subst (λ z. p z ≡ false) e hp in let qy = subst (λ z. q z ≡ true) e hq in ground arith
count_strict p q x (y ∷ ys) sub (tail m) hp hq =
    let below = count_strict p q x ys sub m hp hq in let here = sub y in ground arith

lookup-mem :
    (g : GroupId) (groups : List (GroupId × Group)) (h : Group)
    → lookup str_discrete g groups ≡ some h
    → Memᴰ g (ids groups)
unfolding lookup
lookup-mem g [] h e = cc
lookup-mem g ((k, x) ∷ rest) h e = elim (str_discrete k g) [
  | yes same ↦ head (sym same)
  | no ne ↦ tail (lookup-mem g rest h (ground arith))
]

module _ (groups : List (GroupId × Group)) where
  abbrev whites : Colors → ℕ
  whites c = count (is_white c) (ids groups)

  -- Nothing turns white again.
  abbrev Darkens : Colors → Colors → Type 0
  Darkens c c' = (g : GroupId) → is_white c' g ≡ true → is_white c g ≡ true

  -- A search from `c` does not run out of fuel, and only darkens.
  record Fueled (c : Colors) (v : Visit) : Type 0 where
    enough : v ≢ failed out_of_fuel
    darkens : (c' : Colors) → v ≡ done c' → Darkens c c'

  visit_each-Fueled :
      (one : GroupId → Colors → Visit) (n : ℕ)
      → ((g : GroupId) (c : Colors) → whites c < n → Fueled c (one g c))
      → (gs : List GroupId) (c : Colors) → whites c < n
      → Fueled c (visit_each one gs c)
  unfolding visit_each
  visit_each-Fueled one n h [] c w = record {
    enough = λ e. cc;
    darkens = λ c' e. subst (Darkens c) (done-injective groups e) (λ g x. x);
  }
  visit_each-Fueled one n h (g ∷ gs) c w =
      let first = h g c w in
      elim (Visit-cases groups (one g c)) [
        | inr (x, f) ↦ record {
          enough = λ e. first.enough (ground arith);
          darkens = λ c' e. absurd (ground arith);
        }
        | inl (mid, f) ↦
            let dark = first.darkens mid f in
            let later =
              visit_each-Fueled one n h gs mid
                (omega (arith, count_mono (is_white mid) (is_white c) (ids groups) dark)) in
            record {
              enough = λ e. later.enough (ground arith);
              darkens = λ c' e g x. dark g (later.darkens c' (ground arith) g x);
            }
      ]

  set_grey-Darkens : (g : GroupId) (c : Colors) → Darkens c (set_grey g c)
  set_grey-Darkens g c x h = ground arith

  -- Below a white group there is a white group less, or the group is unknown and includes none.
  whites-set_grey :
      (g : GroupId) (c : Colors)
      → is_white c g ≡ true
      → (whites (set_grey g c) < whites c) ⊎ (includes_at groups g ≡ [])
  unfolding includes_at
  whites-set_grey g c w = elim (Option-cases (lookup str_discrete g groups)) [
    | inl missing ↦ inr (rw (missing, includes_at) refl)
    | inr (h, found) ↦ inl (
        count_strict (is_white (set_grey g c)) (is_white c) g (ids groups) (set_grey-Darkens g c)
          (lookup-mem g groups h found) (ground arith) w)
  ]

  done-Fueled : (c : Colors) → Fueled c (done c)
  done-Fueled c = record {
    enough = λ e. cc;
    darkens = λ c' e. subst (Darkens c) (done-injective groups e) (λ g x. x);
  }

  blacken-Fueled :
      (g : GroupId) (c : Colors) (v : Visit) → Fueled (set_grey g c) v → Fueled c (blacken g v)
  blacken-Fueled g c (failed x) below = record {
    enough = λ e. below.enough e;
    darkens = λ c' e. cc;
  }
  blacken-Fueled g c (done mid) below = record {
    enough = λ e. cc;
    darkens = λ c' e.
        subst (Darkens c) (done-injective groups e)
          (λ x h. set_grey-Darkens g c x (below.darkens mid refl x (ground arith)));
  }

  visit-Fueled :
      (fuel : ℕ) (path : List GroupId) (g : GroupId) (c : Colors)
      → whites c < fuel
      → Fueled c (visit groups fuel path g c)
  unfolding visit visit_each
  visit-Fueled zero path g c w = absurd (omega arith)
  visit-Fueled (suc fuel) path g c w = elim (Bool-cases (member g c.black)) [
    | inl black ↦ rw (black, visit) (done-Fueled c)
    | inr fresh ↦ elim (Bool-cases (member g c.grey)) [
      | inl grey ↦ rw (fresh, grey, visit) (record { enough = λ e. cc; darkens = λ c' e. cc })
      | inr white ↦
          rw (fresh, white, visit)
            (blacken-Fueled g c _ (elim (whites-set_grey g c (ground arith)) [
              | inl less ↦
                  visit_each-Fueled (visit groups fuel (path ++ g ∷ [])) fuel
                    (visit-Fueled fuel (path ++ g ∷ [])) (includes_at groups g) (set_grey g c)
                    (omega arith)
              | inr nothing ↦
                  subst
                    (λ incs.
                      Fueled (set_grey g c)
                        (visit_each (visit groups fuel (path ++ g ∷ [])) incs (set_grey g c)))
                    (sym nothing) (done-Fueled (set_grey g c))
            ]))
    ]
  ]

  start-whites : (c : Colors) → whites c ≤ length (ids groups)
  start-whites c = count-le-length (is_white c) (ids groups)

  -- The search for cycles ends with an answer: every group was explored, or a cycle was found.
  pub detect_group_cycles_terminates : detect_group_cycles groups ≢ failed out_of_fuel
  unfolding detect_group_cycles
  detect_group_cycles_terminates =
      (visit_each-Fueled (visit groups (suc (length (ids groups))) []) (suc (length (ids groups)))
        (visit-Fueled (suc (length (ids groups))) []) (sort_by str_ltb (ids groups)) _
        (omega (arith, start-whites (record { grey = []; black = [] })))).enough
