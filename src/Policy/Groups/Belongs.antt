-- ===== src/Policy/Groups/Belongs.antt =====
-- Who belongs to which group, by inclusion, and that `resolveMemberships` computes it.
use mathlib.Core.List.{List, [], ◌∷◌, Memᴰ}
use mathlib.Core.List.Memᴰ.{head, tail}
use mathlib.Core.Path.{subst}
use nit.Base.{
  count-le-length, Memᴰ-cons, Memᴰ-append, ◌⊎◌, ◌↔◌, ◌+◌, ◌≡◌, refl, ap, inl, inr, not, some,
  GoString, str_ltb, length, arith, sort_by, mem-sort_by,
}
use nit.Policy.Identity.{UserId, GroupId, Group}
use nit.Policy.Groups.{
  member, edges, edges_of, included_by, listing, direct, closure, groups_of_user,
}
use nit.Policy.Groups.Members.{Reach, start, step, closure_returns, closure_lem}

-- A user belongs to a group that lists the user, and to a group that includes one that the user
-- belongs to.
pub data Belongs (groups : List (GroupId × Group)) (uid : UserId) : GroupId → Type 0 where
  listed :
      {key : GroupId} {g : Group}
      → Memᴰ (key, g) groups
      → Memᴰ uid g.members
      → Belongs groups uid g.id
  included :
      {key h : GroupId} {g : Group}
      → Memᴰ (key, g) groups
      → Memᴰ h g.includes
      → Belongs groups uid h
      → Belongs groups uid g.id

-- A declared group of this ID with this name in this list.
abbrev Lists : (Group → List GoString) → List (GroupId × Group) → GoString → GroupId → Type 0
Lists field groups name id =
    (key : GroupId) × (g : Group) × Memᴰ (key, g) groups × Memᴰ name (field g) × (id ≡ g.id)

mem-included_by :
    (es : List (GroupId × GroupId)) (h g : GroupId) → Memᴰ g (included_by es h) ↔ Memᴰ (h, g) es
unfolding included_by
mem-included_by [] h g = (λ m. elim m [ ], λ m. elim m [ ])
mem-included_by ((inc, x) ∷ es) h g =
    ground (
      arith,
      Memᴰ-cons g x (included_by es h),
      Memᴰ-cons (h, g) (inc, x) es,
      mem-included_by es h g,
    )

mem-edges_of :
    (g : Group) (incs : List GroupId) (h id : GroupId)
    → Memᴰ (h, id) (edges_of g incs) ↔ (Memᴰ h incs × (id ≡ g.id))
mem-edges_of g [] h id = (λ m. elim m [ ], λ p. elim p.0 [ ])
mem-edges_of g (inc ∷ incs) h id = ground (
  arith,
  Memᴰ-cons (h, id) (inc, g.id) (edges_of g incs),
  Memᴰ-cons h inc incs,
  mem-edges_of g incs h id,
)

mem-listing :
    (uid : UserId) (g : GroupId) (ms : List UserId) (id : GroupId)
    → Memᴰ id (listing uid g ms) ↔ (Memᴰ uid ms × (id ≡ g))
mem-listing uid g [] id = (λ m. elim m [ ], λ p. elim p.0 [ ])
mem-listing uid g (m ∷ ms) id =
    ground (arith, Memᴰ-cons id g (listing uid g ms), Memᴰ-cons uid m ms, mem-listing uid g ms id)

-- A list that is gathered from the groups holds what each of them gives.
module _ (field : Group → List GoString) (name id : GoString) where
  Lists-head :
      (key : GroupId) (g : Group) (rest : List (GroupId × Group))
      → (Memᴰ name (field g) × (id ≡ g.id))
      → Lists field ((key, g) ∷ rest) name id
  Lists-head key g rest (m, e) = (key, g, head refl, m, e)

  Lists-tail :
      (entry : GroupId × Group) (rest : List (GroupId × Group))
      → Lists field rest name id
      → Lists field (entry ∷ rest) name id
  Lists-tail entry rest (key, g, there, m, e) = (key, g, tail there, m, e)

  Lists-cases :
      (key : GroupId) (g : Group) (rest : List (GroupId × Group))
      → Lists field ((key, g) ∷ rest) name id
      → (Memᴰ name (field g) × (id ≡ g.id)) ⊎ Lists field rest name id
  Lists-cases key g rest (k, g', head same, m, e) =
      let same_group : g' ≡ g = ap (λ x. x.1) same in
      inl (subst (λ x. Memᴰ name (field x) × (id ≡ x.id)) same_group (m, e))
  Lists-cases key g rest (k, g', tail there, m, e) = inr (k, g', there, m, e)

  Lists-cons :
      (key : GroupId) (g : Group) (rest : List (GroupId × Group))
      → Lists field ((key, g) ∷ rest) name id
        ↔ ((Memᴰ name (field g) × (id ≡ g.id)) ⊎ Lists field rest name id)
  Lists-cons key g rest = (
    Lists-cases key g rest,
    λ s. elim s [ inl h ↦ Lists-head key g rest h | inr t ↦ Lists-tail (key, g) rest t ],
  )

mem-edges :
    (groups : List (GroupId × Group)) (h id : GroupId)
    → Memᴰ (h, id) (edges groups) ↔ Lists (λ g. g.includes) groups h id
mem-edges [] h id = (λ m. elim m [ ], λ (_, _, m, _, _). elim m [ ])
mem-edges ((key, g) ∷ rest) h id =
    let split = Memᴰ-append (h, id) (edges_of g g.includes) (edges rest) in
    let here = mem-edges_of g g.includes h id in
    let later = mem-edges rest h id in
    let cons = Lists-cons (λ g. g.includes) h id key g rest in
    (
      λ m. cons.1 (elim (split.0 m) [ inl a ↦ inl (here.0 a) | inr b ↦ inr (later.0 b) ]),
      λ l. split.1 (elim (cons.0 l) [ inl a ↦ inl (here.1 a) | inr b ↦ inr (later.1 b) ]),
    )

mem-direct :
    (groups : List (GroupId × Group)) (uid : UserId) (id : GroupId)
    → Memᴰ id (direct groups uid) ↔ Lists (λ g. g.members) groups uid id
unfolding direct
mem-direct [] uid id = (λ m. elim m [ ], λ (_, _, m, _, _). elim m [ ])
mem-direct ((key, g) ∷ rest) uid id =
    let split = Memᴰ-append id (listing uid g.id g.members) (direct rest uid) in
    let here = mem-listing uid g.id g.members id in
    let later = mem-direct rest uid id in
    let cons = Lists-cons (λ g. g.members) uid id key g rest in
    (
      λ m. cons.1 (elim (split.0 m) [ inl a ↦ inl (here.0 a) | inr b ↦ inr (later.0 b) ]),
      λ l. split.1 (elim (cons.0 l) [ inl a ↦ inl (here.1 a) | inr b ↦ inr (later.1 b) ]),
    )

module _ (groups : List (GroupId × Group)) (uid : UserId) where
  abbrev Reached : GroupId → Type 0
  Reached = Reach (edges groups) (direct groups uid)

  Reached-Belongs : {g : GroupId} → Reached g → Belongs groups uid g
  Reached-Belongs (start {g} m) =
      let (key, grp, there, lists, e) = (mem-direct groups uid g).0 m in rw e (listed there lists)
  Reached-Belongs (step {h} {g} p m) =
      let (key, grp, there, includes, e) =
        (mem-edges groups h g).0 ((mem-included_by (edges groups) h g).0 m) in
      rw e (included there includes (Reached-Belongs p))

  Belongs-Reached : {g : GroupId} → Belongs groups uid g → Reached g
  Belongs-Reached (listed {key} {g} there lists) =
      start ((mem-direct groups uid g.id).1 (key, g, there, lists, refl))
  Belongs-Reached (included {key} {h} {g} there includes p) = step (Belongs-Reached p) (
      (mem-included_by (edges groups) h g.id).1
        ((mem-edges groups h g.id).1 (key, g, there, includes, refl)))

  fuel_enough :
      (seen : List GroupId)
      → closure
          (length (direct groups uid) + length (edges groups))
          (edges groups)
          []
          (direct groups uid)
        ≡ some seen
      → (groups_of_user groups uid ≡ some (sort_by str_ltb seen))
        × ((g : GroupId) → Memᴰ g (sort_by str_ltb seen) ↔ Belongs groups uid g)
  unfolding groups_of_user
  fuel_enough seen found = (
    rw (found, groups_of_user) refl,
    λ g.
        let sorted : Memᴰ g (sort_by str_ltb seen) ↔ Memᴰ g seen = mem-sort_by str_ltb seen in
        let reached = closure_lem (edges groups) (direct groups uid) _ seen found g in
        (
          λ m. Reached-Belongs (reached.0 (sorted.0 m)),
          λ b. sorted.1 (reached.1 (Belongs-Reached b)),
        ),
  )

  -- The search for the groups of a user ends, and finds exactly those that the user belongs to.
  pub groups_of_user-Belongs :
      (gs : List GroupId) × (groups_of_user groups uid ≡ some gs)
      × ((g : GroupId) → Memᴰ g gs ↔ Belongs groups uid g)
  groups_of_user-Belongs =
      let es = edges groups in
      let src = direct groups uid in
      let (seen, found) =
        closure_returns (length src + length es) es [] src
          (omega (arith, count-le-length (λ (e : GroupId × GroupId). not (member e.0 [])) es)) in
      let (returns, belongs) = fuel_enough seen found in (sort_by str_ltb seen, returns, belongs)
