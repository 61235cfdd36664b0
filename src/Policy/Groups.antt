-- ===== src/Policy/Groups.antt =====
-- pkg/policy/policy.go: the groups of a bundle, the check of their references, the search for
-- inclusion cycles, and the groups that each user belongs to.
--
-- A map with groups as keys is an association list, met by a `range` loop in its order.
pub mod Cycles
pub mod Depth
pub mod Members
pub mod Belongs
use mathlib.Core.List.{List, [], ◌∷◌, ◌++◌, map}
use mathlib.Core.Bool.{Bool, true, false, not}
use mathlib.Core.Option.{Option, none, some}
use nit.Base.{
  ℕ, zero, suc, ◌+◌, GoString, text, ◌==◌, str_discrete, str_ltb, lookup, has_key, insert, any,
  keep, length, has_prefix, if◌then◌else◌, Result, ok, err, refuse_if, ◌>>◌, sort_by,
}
use nit.Policy.Identity.{UserId, GroupId, User, Group}
use nit.Policy.Rule.{Rule, RuleSubject, SubjectType, group}

abbrev pub directory_prefix : GoString
directory_prefix = text "idp:"

abbrev pub member : GoString → List GoString → Bool
member id ids = any (λ x. x == id) ids

-- The closure `adopt`.
unfoldable pub adopt : GroupId → List (GroupId × Group) → List (GroupId × Group)
adopt id groups =
    if not (has_prefix id directory_prefix)
    then groups
    else if has_key str_discrete id groups
    then groups
    else insert str_discrete id
        (record {
          id = id;
          description = text "from a directory; empty here";
          members = [];
          includes = [];
        })
        groups

unfoldable pub adopt_all : List GroupId → List (GroupId × Group) → List (GroupId × Group)
adopt_all [] groups = groups
adopt_all (id ∷ ids) groups = adopt_all ids (adopt id groups)

-- The groups that the subject of a rule, or an exception from it, names.
abbrev pub group_named : SubjectType → GoString → List GroupId
group_named group id = id ∷ []
group_named _ id = []

abbrev pub groups_named : List RuleSubject → List GroupId
groups_named [] = []
groups_named (s ∷ ss) = group_named s.type s.id ++ groups_named ss

abbrev pub groups_of_rules : List Rule → List GroupId
groups_of_rules [] = []
groups_of_rules (r ∷ rs) = groups_named (r.subject ∷ r.except) ++ groups_of_rules rs

abbrev pub groups_of_all : List (GoString × List Rule) → List GroupId
groups_of_all [] = []
groups_of_all ((repo, rs) ∷ rest) = groups_of_rules rs ++ groups_of_all rest

abbrev pub includes_of_all : List Group → List GroupId
includes_of_all [] = []
includes_of_all (g ∷ gs) = g.includes ++ includes_of_all gs

unfoldable pub adopt_directory_groups :
    List Group → List (GoString × List Rule) → List (GroupId × Group) → List (GroupId × Group)
adopt_directory_groups gs rules groups =
    adopt_all (includes_of_all gs ++ groups_of_all rules) groups

pub data GroupError : Type 0 where
  unknown_member : GroupId → UserId → GroupError
  unknown_include : GroupId → GroupId → GroupError
  inclusion_cycle : List GroupId → GroupId → GroupError
  out_of_fuel : GroupError

-- The loops over the members and over the included groups of a group.
abbrev pub check_members :
    List (UserId × User) → GroupId → List UserId → Result GroupError (Unit {0})
check_members users id [] = ok tt
check_members users id (m ∷ ms) =
    refuse_if (not (has_key str_discrete m users)) (unknown_member id m)
    >> check_members users id ms

abbrev pub check_includes :
    List (GroupId × Group) → GroupId → List GroupId → Result GroupError (Unit {0})
check_includes groups id [] = ok tt
check_includes groups id (inc ∷ incs) =
    refuse_if (not (has_key str_discrete inc groups)) (unknown_include id inc)
    >> check_includes groups id incs

abbrev pub check_each :
    List (UserId × User)
    → List (GroupId × Group)
    → List (GroupId × Group)
    → Result GroupError (Unit {0})
check_each users groups [] = ok tt
check_each users groups ((key, g) ∷ rest) =
    check_members users g.id g.members
    >> (check_includes groups g.id g.includes >> check_each users groups rest)

unfoldable pub check_group_references :
    List (UserId × User) → List (GroupId × Group) → Result GroupError (Unit {0})
check_group_references users groups = check_each users groups groups

-- The map `state`: a group is black once it was set black, else grey once it was set grey, else
-- white. No group is set grey after it was set black, since only a white group is.
pub record Colors : Type 0 where
  pub grey : List GroupId
  pub black : List GroupId

pub data Visit : Type 0 where
  done : Colors → Visit
  failed : GroupError → Visit

-- `p.groups[g].Includes`, of the zero group where the key is missing.
unfoldable pub includes_at : List (GroupId × Group) → GroupId → List GroupId
includes_at groups g = elim (lookup str_discrete g groups) [ none ↦ [] | some h ↦ h.includes ]

-- The loop over the included groups, up to the first error.
unfoldable pub visit_each : (GroupId → Colors → Visit) → List GroupId → Colors → Visit
visit_each visit_one [] c = done c
visit_each visit_one (g ∷ gs) c = elim (visit_one g c) [
  | done c' ↦ visit_each visit_one gs c'
  | failed e ↦ failed e
]

abbrev pub set_grey : GroupId → Colors → Colors
set_grey g c = record c { grey = g ∷ c.grey }

abbrev pub set_black : GroupId → Colors → Colors
set_black g c = record c { black = g ∷ c.black }

abbrev pub blacken : GroupId → Visit → Visit
blacken g (done c) = done (set_black g c)
blacken g (failed e) = failed e

module _ (groups : List (GroupId × Group)) where
  -- The closure `visit`; the fuel bounds the depth of its recursion.
  unfoldable pub visit : ℕ → List GroupId → GroupId → Colors → Visit
  unfolding visit_each includes_at
  visit zero path g c = failed out_of_fuel
  visit (suc fuel) path g c =
      let path' = path ++ g ∷ [] in
      let below = visit_each (visit fuel path') (includes_at groups g) (set_grey g c) in
      if member g c.black
      then done c
      else if member g c.grey
      then failed (inclusion_cycle path g)
      else blacken g below

  abbrev pub ids : List GroupId
  ids = map (λ entry. entry.0) groups

  -- A group is grey below a visit of it, so no recursion is deeper than there are groups.
  unfoldable pub detect_group_cycles : Visit
  unfolding visit_each
  detect_group_cycles =
      visit_each (visit (suc (length ids)) []) (sort_by str_ltb ids)
        (record { grey = []; black = [] })

-- The map `includedBy`, as the list of its entries: a group, and one that includes it.
abbrev pub edges_of : Group → List GroupId → List (GroupId × GroupId)
edges_of g [] = []
edges_of g (inc ∷ incs) = (inc, g.id) ∷ edges_of g incs

abbrev pub edges : List (GroupId × Group) → List (GroupId × GroupId)
edges [] = []
edges ((key, g) ∷ rest) = edges_of g g.includes ++ edges rest

-- `includedBy[h]`.
unfoldable pub included_by : List (GroupId × GroupId) → GroupId → List GroupId
included_by [] h = []
included_by ((inc, g) ∷ es) h = let rest = included_by es h in if inc == h then g ∷ rest else rest

-- `direct[uid]`: a group once for each time that it lists the user.
abbrev pub listing : UserId → GroupId → List UserId → List GroupId
listing uid g [] = []
listing uid g (m ∷ ms) = let rest = listing uid g ms in if m == uid then g ∷ rest else rest

unfoldable pub direct : List (GroupId × Group) → UserId → List GroupId
direct [] uid = []
direct ((key, g) ∷ rest) uid = listing uid g.id g.members ++ direct rest uid

-- The loop over the queue; `none` is the end of the fuel.
unfoldable pub closure :
    ℕ → List (GroupId × GroupId) → List GroupId → List GroupId → Option (List GroupId)
closure fuel es seen [] = some seen
closure zero es seen (g ∷ queue) = none
closure (suc fuel) es seen (g ∷ queue) =
    let skip = closure fuel es seen queue in
    let follow = closure fuel es (g ∷ seen) (queue ++ included_by es g) in
    if member g seen then skip else follow

-- Every round takes one group from the queue, and every entry of `includedBy` is queued at most once.
unfoldable pub groups_of_user : List (GroupId × Group) → UserId → Option (List GroupId)
groups_of_user groups uid =
    elim (closure (length (direct groups uid) + length (edges groups)) (edges groups) []
      (direct groups uid)) [ none ↦ none | some seen ↦ some (sort_by str_ltb seen) ]

-- The loop over the users.
abbrev pub members_from :
    List (GroupId × Group) → List (UserId × User) → Option (List (UserId × List GroupId))
members_from groups [] = some []
members_from groups ((uid, u) ∷ rest) = elim (groups_of_user groups uid) [
  | none ↦ none
  | some gs ↦ elim (members_from groups rest) [ none ↦ none | some m ↦ some ((uid, gs) ∷ m) ]
]

unfoldable pub resolve_memberships :
    List (UserId × User) → List (GroupId × Group) → Result GroupError (List (UserId × List GroupId))
resolve_memberships users groups = elim (detect_group_cycles groups) [
  | failed e ↦ err e
  | done c ↦ elim (members_from groups users) [ none ↦ err out_of_fuel | some m ↦ ok m ]
]
