-- ===== src/Policy/Groups/Cycles.antt =====
-- `detectGroupCycles` ends, and what it accepts has no inclusion cycle.
use mathlib.Core.List.{List, [], ◌∷◌, ◌++◌, Memᴰ}
use mathlib.Core.WellFounded.{Acc}
use mathlib.Core.Path.{subst}
use nit.Base.{
  ◌↔◌, Memᴰ-cons, ◌⊎◌, ℕ, zero, suc, ◌≡◌, refl, inl, inr, true, str_ltb, length, All, All_of_mem,
  Bool-cases, arith, sort_by, All-sort_by,
}
use nit.Policy.Identity.{GroupId, Group}
use nit.Policy.Groups.{
  member, GroupError, Colors, Visit, done, failed, includes_at, visit_each, set_grey, set_black,
  visit, ids, detect_group_cycles,
}

pub member_iff : (g : GroupId) (gs : List GroupId) → (member g gs ≡ true) ↔ Memᴰ g gs
member_iff g [] = (λ e. cc, λ m. elim m [ ])
member_iff g (x ∷ gs) = ground (arith, Memᴰ-cons g x gs, member_iff g gs)

module _ (groups : List (GroupId × Group)) where
  -- `h` is included by `g`.
  abbrev pub IsIncluded : GroupId → GroupId → Type 0
  IsIncluded h g = Memᴰ h (includes_at groups g)

  -- Every chain of inclusions from a group ends.
  abbrev pub Ends : GroupId → Type 0
  Ends g = Acc IsIncluded g

  pub Visit-cases :
      (v : Visit) → ((c : Colors) × (v ≡ done c)) ⊎ ((e : GroupError) × (v ≡ failed e))
  Visit-cases (done c) = inl (c, refl)
  Visit-cases (failed e) = inr (e, refl)

  pub done-injective : {c c' : Colors} → done c ≡ done c' → c ≡ c'
  done-injective e = cc

  -- A visit that is done leaves only groups black whose chains end, if it found only such.
  abbrev SoundVisit : (GroupId → Colors → Visit) → Type 0
  SoundVisit one =
      (g : GroupId) (c c' : Colors)
      → All Ends c.black
      → one g c ≡ done c'
      → All Ends c'.black × Ends g

  visit_each-Ends :
      (one : GroupId → Colors → Visit)
      → SoundVisit one
      → (gs : List GroupId) (c c' : Colors) → All Ends c.black
      → visit_each one gs c ≡ done c'
      → All Ends c'.black × All Ends gs
  unfolding visit_each
  visit_each-Ends one sound [] c c' h e = (subst (λ x. All Ends x.black) (done-injective e) h, tt)
  visit_each-Ends one sound (g ∷ gs) c c' h e = elim (Visit-cases (one g c)) [
    | inr (x, f) ↦ absurd (ground arith)
    | inl (mid, f) ↦
        let (black, here) = sound g c mid h f in
        let (later, rest) = visit_each-Ends one sound gs mid c' black (ground arith) in
        (later, (here, rest))
  ]

  visit-Ends : (fuel : ℕ) (path : List GroupId) → SoundVisit (visit groups fuel path)
  unfolding visit
  visit-Ends zero path g c c' h e = cc
  visit-Ends (suc fuel) path g c c' h e = elim (Bool-cases (member g c.black)) [
    | inl black ↦
        let same : c ≡ c' = ground arith in
        (subst (λ x. All Ends x.black) same h, All_of_mem Ends ((member_iff g c.black).0 black) h)
    | inr fresh ↦ elim (Bool-cases (member g c.grey)) [
      | inl grey ↦ absurd (ground arith)
      | inr white ↦
          elim (Visit-cases (
            visit_each (visit groups fuel (path ++ g ∷ [])) (includes_at groups g)
              (set_grey g c))) [
                | inr (x, f) ↦ absurd (ground arith)
                | inl (below, f) ↦
                    let (blacks, incs) =
                      visit_each-Ends _ (visit-Ends fuel (path ++ g ∷ [])) (includes_at groups g)
                        (set_grey g c) below h f in
                    let ends : Ends g = Acc.intro g (λ inc m. All_of_mem Ends m incs) in
                    let same : set_black g below ≡ c' = ground arith in
                    (subst (λ x. All Ends x.black) same (ends, blacks), ends)
              ]
    ]
  ]

  -- A group that nothing includes itself through: no chain of inclusions comes back to it.
  pub detect_group_cycles-Ends :
      (c : Colors) → detect_group_cycles groups ≡ done c → All Ends (ids groups)
  unfolding detect_group_cycles
  detect_group_cycles-Ends c e =
      (All-sort_by str_ltb Ends (ids groups)).0
        (visit_each-Ends _ (visit-Ends (suc (length (ids groups))) [])
          (sort_by str_ltb (ids groups)) _ c tt e).1
