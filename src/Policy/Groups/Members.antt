-- ===== src/Policy/Groups/Members.antt =====
-- The search of `resolveMemberships` ends, and finds the groups that a user belongs to.
use mathlib.Core.List.{List, [], ◌∷◌, ◌++◌, Memᴰ}
use mathlib.Core.List.Memᴰ
use mathlib.Core.List.Memᴰ.{head, tail}
use mathlib.Core.Path.{subst}
use nit.Base.{
  some-injective, ◌⊎◌, ◌↔◌, ℕ, zero, suc, ◌+◌, ◌≤◌, ◌≡◌, refl, sym, inl, inr, false, not, some,
  count, length, length-append, All, All_of_mem, All-append, All-mem, Bool-cases, arith,
}
use nit.Policy.Identity.{GroupId}
use nit.Policy.Groups.{member, included_by, closure}
use nit.Policy.Groups.Cycles.{member_iff}

-- The entries of `includedBy` that were not followed yet.
abbrev pending : List (GroupId × GroupId) → List GroupId → ℕ
pending es seen = count (λ e. not (member e.0 seen)) es

pending-cons :
    (es : List (GroupId × GroupId)) (seen : List GroupId) (g : GroupId)
    → member g seen ≡ false
    → pending es seen ≡ pending es (g ∷ seen) + length (included_by es g)
unfolding count included_by
pending-cons [] seen g h = omega arith
pending-cons ((inc, x) ∷ es) seen g h = ground (arith, pending-cons es seen g)

pub closure_returns :
    (fuel : ℕ) (es : List (GroupId × GroupId)) (seen queue : List GroupId)
    → length queue + pending es seen ≤ fuel
    → (r : List GroupId) × (closure fuel es seen queue ≡ some r)
unfolding closure
closure_returns fuel es seen [] h = (seen, refl)
closure_returns zero es seen (g ∷ queue) h = absurd (omega arith)
closure_returns (suc fuel) es seen (g ∷ queue) h = elim (Bool-cases (member g seen)) [
  | inl old ↦ rw old (closure_returns fuel es seen queue (omega arith))
  | inr fresh ↦ rw fresh (
      closure_returns fuel es (g ∷ seen) (queue ++ included_by es g)
        (omega (arith, pending-cons es seen g fresh, length-append queue (included_by es g))))
]

-- The groups that inclusion leads to from the groups `src`.
pub data Reach (es : List (GroupId × GroupId)) (src : List GroupId) : GroupId → Type 0 where
  start : {g : GroupId} → Memᴰ g src → Reach es src g
  step : {h g : GroupId} → Reach es src h → Memᴰ g (included_by es h) → Reach es src g

module _ (es : List (GroupId × GroupId)) (src : List GroupId) where
  record Inv (seen queue : List GroupId) : Type 0 where
    sound_seen : All (Reach es src) seen
    sound_queue : All (Reach es src) queue
    closed : (h g : GroupId) → Memᴰ h seen → Memᴰ g (included_by es h) → Memᴰ g seen ⊎ Memᴰ g queue
    sources : (g : GroupId) → Memᴰ g src → Memᴰ g seen ⊎ Memᴰ g queue

  -- A group that was seen leaves the queue.
  Inv-skip :
      (seen queue : List GroupId) (g : GroupId)
      → Memᴰ g seen
      → Inv seen (g ∷ queue)
      → Inv seen queue
  Inv-skip seen queue g m inv = record {
    sound_seen = inv.sound_seen;
    sound_queue = inv.sound_queue.1;
    closed = λ h x mh mx. drop x (inv.closed h x mh mx);
    sources = λ x mx. drop x (inv.sources x mx);
  }
    where
      drop : (x : GroupId) → Memᴰ x seen ⊎ Memᴰ x (g ∷ queue) → Memᴰ x seen ⊎ Memᴰ x queue
      drop x (inl s) = inl s
      drop x (inr (head e)) = inl (subst (λ y. Memᴰ y seen) (sym e) m)
      drop x (inr (tail t)) = inr t

  Inv-follow :
      (seen queue : List GroupId) (g : GroupId)
      → Inv seen (g ∷ queue)
      → Inv (g ∷ seen) (queue ++ included_by es g)
  Inv-follow seen queue g inv = record {
    sound_seen = (inv.sound_queue.0, inv.sound_seen);
    sound_queue =
        All-append (Reach es src) queue (included_by es g) inv.sound_queue.1
          (All-mem (Reach es src) (included_by es g) (λ x m. step inv.sound_queue.0 m));
    closed = λ h x mh mx. follow h x mx mh;
    sources = λ x mx. move x (inv.sources x mx);
  }
    where
      move :
          (x : GroupId)
          → Memᴰ x seen ⊎ Memᴰ x (g ∷ queue)
          → Memᴰ x (g ∷ seen) ⊎ Memᴰ x (queue ++ included_by es g)
      move x (inl s) = inl (tail s)
      move x (inr (head e)) = inl (head e)
      move x (inr (tail t)) = inr (Memᴰ.append_left _ t)

      follow :
          (h x : GroupId)
          → Memᴰ x (included_by es h)
          → Memᴰ h (g ∷ seen)
          → Memᴰ x (g ∷ seen) ⊎ Memᴰ x (queue ++ included_by es g)
      follow h x mx (head e) =
          inr (Memᴰ.append_right queue (subst (λ y. Memᴰ x (included_by es y)) e mx))
      follow h x mx (tail m) = move x (inv.closed h x m mx)

  closure-Inv :
      (fuel : ℕ) (seen queue r : List GroupId)
      → closure fuel es seen queue ≡ some r
      → Inv seen queue
      → Inv r []
  unfolding closure
  closure-Inv fuel seen [] r e inv = subst (λ x. Inv x []) (some-injective e) inv
  closure-Inv zero seen (g ∷ queue) r e inv = cc
  closure-Inv (suc fuel) seen (g ∷ queue) r e inv = elim (Bool-cases (member g seen)) [
    | inl old ↦
        closure-Inv fuel seen queue r (ground arith)
          (Inv-skip seen queue g ((member_iff g seen).0 old) inv)
    | inr fresh ↦
        closure-Inv fuel (g ∷ seen) (queue ++ included_by es g) r (ground arith)
          (Inv-follow seen queue g inv)
  ]

  Inv-start : Inv [] src
  Inv-start = record {
    sound_seen = tt;
    sound_queue = All-mem (Reach es src) src (λ g m. start m);
    closed = λ h g m. elim m [ ];
    sources = λ g m. inr m;
  }

  complete : (r : List GroupId) → Inv r [] → (g : GroupId) → Reach es src g → Memᴰ g r
  complete r inv g (start m) = elim (inv.sources g m) [
    | inl s ↦ s
    | inr q ↦ absurd (Memᴰ.not-nil q)
  ]
  complete r inv g (step {h} p m) = elim (inv.closed h g (complete r inv h p) m) [
    | inl s ↦ s
    | inr q ↦ absurd (Memᴰ.not-nil q)
  ]

  -- What the search leaves are the groups that are reached.
  pub closure_lem :
      (fuel : ℕ) (r : List GroupId)
      → closure fuel es [] src ≡ some r
      → (g : GroupId) → Memᴰ g r ↔ Reach es src g
  closure_lem fuel r e g =
      let inv = closure-Inv fuel [] src r e Inv-start in
      (λ m. All_of_mem (Reach es src) m inv.sound_seen, complete r inv g)
