-- ===== src/Policy/Compile/Compiled.antt =====
-- What a compiled policy satisfies.
use mathlib.Core.List.{List, [], ◌∷◌, Memᴰ}
use mathlib.Core.Logic.{∥∥₁_elim}
use mathlib.Core.Bool.{So-prop}
use nit.Base.{
  ◌↔◌, ◌≡◌, ◌≢◌, ◌∙◌, inl, inr, true, false, none, some, GoString, str_discrete, lookup, has_key,
  insert, lookup-insert_ne, lookup-insert_self, All, Result, ok, err, ok-injective, >>=-eq-ok,
  arith, Option-cases,
}
use nit.Policy.Identity.{UserId, GroupId, User, Group, Repository, Subject, in_group}
use nit.Policy.Rules.{RuleError, compile_rules}
use nit.Policy.Rules.Valid.{IsValid, compile_rules-IsValid}
use nit.Policy.Groups.{
  GroupError, out_of_fuel, adopt_directory_groups, check_group_references, check_each,
  check_members, check_includes, resolve_memberships, members_from, groups_of_user,
  detect_group_cycles, ids,
}
use nit.Policy.Groups.Cycles.{member_iff, Ends, Visit-cases, detect_group_cycles-Ends}
use nit.Policy.Groups.Depth.{detect_group_cycles_terminates}
use nit.Policy.Groups.Belongs.{Belongs, groups_of_user-Belongs}
use nit.Policy.Engine.{Policy}
use nit.Policy.Compile.{tenant_of, Spec, add_all, or_group_error, or_rule_error, compile, subject}

-- The keys of a map that hold a value.
abbrev Holds : {A : Type 0} → GoString → A → List (GoString × A) → Type 0
Holds id x m = lookup str_discrete id m ≡ some x

module _ {A : Type 0} (id_of : A → GoString) where
  add_all-step :
      (x : A) (xs : List A) (m out : List (GoString × A))
      → add_all id_of (x ∷ xs) m ≡ ok out
      → (has_key str_discrete (id_of x) m ≡ false)
        × (add_all id_of xs (insert str_discrete (id_of x) x m) ≡ ok out)
  unfolding add_all
  add_all-step x xs m out e = (ground arith, ground arith)

  add_all-keeps :
      (xs : List A) (m out : List (GoString × A))
      → add_all id_of xs m ≡ ok out
      → (k : GoString) (v : A) → Holds k v m
      → Holds k v out
  unfolding add_all
  add_all-keeps [] m out e k v h = ground (arith, ok-injective e)
  add_all-keeps (x ∷ xs) m out e k v h =
      let (fresh, later) = add_all-step x xs m out e in
      add_all-keeps xs (insert str_discrete (id_of x) x m) out later k v
        (elim (str_discrete (id_of x) k) [
          | yes same ↦ absurd (ground arith)
          | no ne ↦ lookup-insert_ne str_discrete (id_of x) k x m ne ∙ h
        ])

  -- Every declared element is found under its ID.
  add_all-Holds :
      (xs : List A) (m out : List (GoString × A))
      → add_all id_of xs m ≡ ok out
      → All (λ x. Holds (id_of x) x out) xs
  unfolding add_all
  add_all-Holds [] m out e = tt
  add_all-Holds (x ∷ xs) m out e =
      let (fresh, later) = add_all-step x xs m out e in
      (
        add_all-keeps xs (insert str_discrete (id_of x) x m) out later (id_of x) x
            (lookup-insert_self str_discrete (id_of x) x m),
        add_all-Holds xs (insert str_discrete (id_of x) x m) out later,
      )

-- What a group refers to is declared.
abbrev pub IsDeclared : {A : Type 0} → List (GoString × A) → GoString → Type 0
IsDeclared m id = has_key str_discrete id m ≡ true

abbrev pub RefersToDeclared : List (UserId × User) → List (GroupId × Group) → Group → Type 0
RefersToDeclared users groups g =
    All (IsDeclared users) g.members × All (IsDeclared groups) g.includes

check_members-ok :
    (users : List (UserId × User)) (id : GroupId) (ms : List UserId)
    → check_members users id ms ≡ ok tt
    → All (IsDeclared users) ms
check_members-ok users id [] e = tt
check_members-ok users id (m ∷ ms) e = ground (arith, check_members-ok users id ms)

check_includes-ok :
    (groups : List (GroupId × Group)) (id : GroupId) (incs : List GroupId)
    → check_includes groups id incs ≡ ok tt
    → All (IsDeclared groups) incs
check_includes-ok groups id [] e = tt
check_includes-ok groups id (inc ∷ incs) e = ground (arith, check_includes-ok groups id incs)

check_each-ok :
    (users : List (UserId × User)) (groups rest : List (GroupId × Group))
    → check_each users groups rest ≡ ok tt
    → All (λ entry. RefersToDeclared users groups entry.1) rest
check_each-ok users groups [] e = tt
check_each-ok users groups ((key, g) ∷ rest) e =
    let members = check_members-ok users g.id g.members in
    let includes = check_includes-ok groups g.id g.includes in
    let later = check_each-ok users groups rest in ground arith

members_from-lookup :
    (groups : List (GroupId × Group)) (us : List (UserId × User)) (m : List (UserId × List GroupId))
    (uid : UserId) (u : User)
    → members_from groups us ≡ some m
    → lookup str_discrete uid us ≡ some u
    → lookup str_discrete uid m ≡ groups_of_user groups uid
unfolding lookup
members_from-lookup groups [] m uid u e h = cc
members_from-lookup groups ((k, v) ∷ us) m uid u e h =
    elim (Option-cases (groups_of_user groups k)) [
      | inl none_here ↦ absurd (ground arith)
      | inr (gs, here) ↦ elim (Option-cases (members_from groups us)) [
        | inl none_later ↦ absurd (ground arith)
        | inr (m', later) ↦
            let whole : (k, gs) ∷ m' ≡ m = ground arith in
            rw (← whole) (elim (str_discrete k uid) [
              | yes same ↦ rw (← same) (ground arith)
              | no ne ↦
                  let rest = members_from-lookup groups us m' uid u later (ground arith) in
                  ground arith
            ])
      ]
    ]

members_from_total :
    (groups : List (GroupId × Group)) (us : List (UserId × User)) → members_from groups us ≢ none
members_from_total groups [] e = cc
members_from_total groups ((k, v) ∷ us) e =
    let (gs, here, _) = groups_of_user-Belongs groups k in
    members_from_total groups us (ground arith)

-- The search for memberships never runs out of its fuel.
pub resolve_memberships_terminates :
    (users : List (UserId × User)) (groups : List (GroupId × Group))
    → resolve_memberships users groups ≢ err out_of_fuel
unfolding resolve_memberships
resolve_memberships_terminates users groups e =
    ground (arith, detect_group_cycles_terminates groups, members_from_total groups users)

-- What the compilation of a bundle without an error returns.
pub record IsCompiled (spec : Spec) (p : Policy) : Type 0 where
  pub tenant : p.tenant ≢ []
  pub users : All (λ u. Holds u.id u p.users) spec.users
  pub repositories : All (λ r. Holds r.id r p.repos) spec.repositories
  pub references : All (λ entry. RefersToDeclared p.users p.groups entry.1) p.groups
  pub acyclic : All (Ends p.groups) (ids p.groups)
  pub memberships :
      (uid : UserId) (u : User)
      → Holds uid u p.users
      → (gs : List GroupId) × Holds uid gs p.memberships
        × ((g : GroupId) → Memᴰ g gs ↔ Belongs p.groups uid g)
  pub rules : All (λ entry. All IsValid entry.1) p.rules

resolve_memberships-ok :
    (users : List (UserId × User)) (groups : List (GroupId × Group))
    (m : List (UserId × List GroupId))
    → resolve_memberships users groups ≡ ok m
    → All (Ends groups) (ids groups) × (members_from groups users ≡ some m)
unfolding resolve_memberships
resolve_memberships-ok users groups m e = elim (Visit-cases groups (detect_group_cycles groups)) [
  | inr (x, f) ↦ absurd (ground arith)
  | inl (c, f) ↦ (detect_group_cycles-Ends groups c f, ground arith)
]

memberships-Belongs :
    (users : List (UserId × User)) (groups : List (GroupId × Group))
    (m : List (UserId × List GroupId)) (uid : UserId) (u : User)
    → resolve_memberships users groups ≡ ok m
    → Holds uid u users
    → (gs : List GroupId) × Holds uid gs m × ((g : GroupId) → Memᴰ g gs ↔ Belongs groups uid g)
memberships-Belongs users groups m uid u e h =
    let (gs, found, belongs) = groups_of_user-Belongs groups uid in
    let same =
      members_from-lookup groups users m uid u (resolve_memberships-ok users groups m e).1 h in
    (gs, same ∙ found, belongs)

or_group_error-ok :
    {A : Type 0} (r : Result GroupError A) (a : A) → or_group_error r ≡ ok a → r ≡ ok a
or_group_error-ok (ok x) a e = cc
or_group_error-ok (err x) a e = cc

or_rule_error-ok : {A : Type 0} (r : Result RuleError A) (a : A) → or_rule_error r ≡ ok a → r ≡ ok a
or_rule_error-ok (ok x) a e = cc
or_rule_error-ok (err x) a e = cc

tenant_of-ne-nil : (spec : Spec) → tenant_of spec ≢ []
tenant_of-ne-nil spec = ground arith

-- A policy that was compiled without an error: its tenant is named; every user and repository of
-- the bundle is found under its ID; groups refer to declared users and groups only, and no chain of
-- inclusions is endless; every user has exactly the groups that the user belongs to, directly or
-- by inclusion; and every rule is valid.
pub compile-IsCompiled : (spec : Spec) (p : Policy) → compile spec ≡ ok p → IsCompiled spec p
unfolding compile check_group_references
compile-IsCompiled spec p e =
    let (us, e_us, e1) = >>=-eq-ok (add_all (λ (u : User). u.id) spec.users []) _ e in
    let (gs, e_gs, e2) = >>=-eq-ok (add_all (λ (g : Group). g.id) spec.groups []) _ e1 in
    let groups = adopt_directory_groups spec.groups spec.rules gs in
    let (rs, e_rs, e3) = >>=-eq-ok (add_all (λ (r : Repository). r.id) spec.repositories []) _ e2 in
    let (_, e_refs, e4) = >>=-eq-ok (or_group_error (check_each us groups groups)) _ e3 in
    let (ms, e_ms, e5) = >>=-eq-ok (or_group_error (resolve_memberships us groups)) _ e4 in
    let (rules, e_rules, e6) =
      >>=-eq-ok (or_rule_error (compile_rules us groups rs spec.rules)) _ e5 in
    let resolved = or_group_error-ok (resolve_memberships us groups) ms e_ms in
    rw (← ok-injective e6) (record {
      tenant = tenant_of-ne-nil spec;
      users = add_all-Holds (λ (u : User). u.id) spec.users [] us e_us;
      repositories = add_all-Holds (λ (r : Repository). r.id) spec.repositories [] rs e_rs;
      references = check_each-ok us groups groups (or_group_error-ok _ tt e_refs);
      acyclic = (resolve_memberships-ok us groups ms resolved).0;
      memberships = λ uid u h. memberships-Belongs us groups ms uid u resolved h;
      rules =
          compile_rules-IsValid us groups rs spec.rules rules (or_rule_error-ok _ rules e_rules);
    })

subject-found :
    (p : Policy) (uid : UserId) (u : User) (gs : List GroupId)
    → lookup str_discrete uid p.users ≡ some u
    → lookup str_discrete uid p.memberships ≡ some gs
    → subject uid p ≡ ok (record { user_id = uid; groups = gs })
unfolding subject
subject-found p uid u gs h found = ground arith

-- The subject of a user whom a compiled policy knows has exactly the groups the user belongs to.
pub subject-Belongs :
    (spec : Spec) (p : Policy) (uid : UserId) (u : User)
    → compile spec ≡ ok p
    → lookup str_discrete uid p.users ≡ some u
    → (s : Subject) × (subject uid p ≡ ok s)
      × ((g : GroupId) → (in_group s g ≡ true) ↔ ∥ Belongs p.groups uid g ∥₁)
unfolding subject in_group
subject-Belongs spec p uid u e h =
    let (gs, found, belongs) = (compile-IsCompiled spec p e).memberships uid u h in
    (
      record { user_id = uid; groups = gs },
      subject-found p uid u gs h found,
      λ g. (
        λ i. ∣ (belongs g).0 ((member_iff g gs).0 i) ∣₁,
        λ b. ∥∥₁_elim b (So-prop _) (λ w. (member_iff g gs).1 ((belongs g).1 w)),
      ),
    )
