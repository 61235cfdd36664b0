-- ===== src/Store/SyncPoints.antt =====
-- pkg/store/models.go and internal/store/memory/memory.go: the sync points, which record the
-- upstream commit that a workspace was projected from.
use mathlib.Core.List.{List, []}
use nit.Base.{
  ℕ, ◌≡◌, ◌≢◌, ◌↔◌, refl, ◌∙◌, sym, inl, inr, Bool, true, false, Option, none, some, GoString, ◌==◌,
  str_discrete, str_ltb, is_empty, if◌then◌else◌, lookup, insert, lookup-insert_self,
  lookup-insert_ne, keep, map, sort_by, not, arith, Option-cases, Result, ok, err,
}
use nit.Store.Task.{StoreError, not_found, conflict}

pub record SyncPoint : Type 0 where
  pub tenant_id : GoString
  pub workspace_id : GoString
  pub repository_id : GoString
  pub branch : GoString
  pub upstream_commit : GoString
  pub policy_version : GoString
  pub created_at : ℕ
  pub updated_at : ℕ

-- The workspace, the repository and the branch.
abbrev pub SyncKey : Type 0
SyncKey = GoString × (GoString × GoString)

pub SyncKey-discrete : Discrete SyncKey
SyncKey-discrete = hlevel str_discrete

unfoldable pub sync_key_discrete : Discrete SyncKey
unfolding SyncKey-discrete str_discrete
sync_key_discrete = SyncKey-discrete

abbrev pub SyncPoints : Type 0
SyncPoints = List (SyncKey × SyncPoint)

abbrev pub key_of : SyncPoint → SyncKey
key_of sp = (sp.workspace_id, (sp.repository_id, sp.branch))

unfoldable pub get_sync_point : SyncKey → SyncPoints → Result StoreError SyncPoint
get_sync_point key m = elim (lookup sync_key_discrete key m) [
  | none ↦ err not_found
  | some sp ↦ ok sp
]

-- A replaced sync point keeps the instant of its creation.
abbrev pub stamped : Option SyncPoint → SyncPoint → SyncPoint
stamped none sp = sp
stamped (some existing) sp = record sp { created_at = existing.created_at }

unfoldable pub put_sync_point : SyncPoint → SyncPoints → SyncPoints
put_sync_point sp m =
    insert sync_key_discrete (key_of sp) (stamped (lookup sync_key_discrete (key_of sp) m) sp) m

-- The `switch` of `CompareAndSet`.
unfoldable pub expects : Option SyncPoint → GoString → Option StoreError
expects none expected = if is_empty expected then none else some not_found
expects (some existing) expected =
    if existing.upstream_commit == expected then none else some conflict

unfoldable pub compare_and_set : SyncPoint → GoString → SyncPoints → SyncPoints × Option StoreError
compare_and_set sp expected m = elim (expects (lookup sync_key_discrete (key_of sp) m) expected) [
  | some e ↦ (m, some e)
  | none ↦ (
    insert sync_key_discrete (key_of sp) (stamped (lookup sync_key_discrete (key_of sp) m) sp) m,
    none,
  )
]

unfoldable pub sorts_before : SyncPoint → SyncPoint → Bool
sorts_before a b =
    if a.repository_id == b.repository_id
    then str_ltb a.branch b.branch
    else str_ltb a.repository_id b.repository_id

unfoldable pub list_by_workspace : GoString → SyncPoints → List SyncPoint
list_by_workspace workspace m =
    sort_by sorts_before (map (λ entry. entry.1) (keep (λ entry. entry.0.0 == workspace) m))

is_key : SyncKey → SyncKey → Bool
is_key a b = elim (sync_key_discrete a b) [ yes _ ↦ true | no _ ↦ false ]

unfoldable pub delete_sync_point : SyncKey → SyncPoints → SyncPoints
unfolding is_key
delete_sync_point key m = keep (λ entry. not (is_key entry.0 key)) m

-- The upstream commit under a key; a missing sync point stands for the empty commit.
abbrev pub commit_of : Option SyncPoint → GoString
commit_of none = []
commit_of (some sp) = sp.upstream_commit

abbrev pub commit_at : SyncKey → SyncPoints → GoString
commit_at key m = commit_of (lookup sync_key_discrete key m)

expects_iff :
    (o : Option SyncPoint) (expected : GoString)
    → (expects o expected ≡ none) ↔ (commit_of o ≡ expected)
unfolding expects
expects_iff none expected = ground arith
expects_iff (some existing) expected = ground arith

-- What a compare-and-set does.
pub record IsGuarded (sp : SyncPoint) (expected : GoString) (m after : SyncPoints)
    (e : Option StoreError) : Type 0 where
  pub accepted : (e ≡ none) ↔ (commit_at (key_of sp) m ≡ expected)
  pub refused : e ≢ none → after ≡ m
  pub stored :
      e ≡ none
      → lookup sync_key_discrete (key_of sp) after
        ≡ some (stamped (lookup sync_key_discrete (key_of sp) m) sp)
  pub others :
      (key : SyncKey)
      → key_of sp ≢ key
      → lookup sync_key_discrete key after ≡ lookup sync_key_discrete key m

pub stamped-upstream :
    (o : Option SyncPoint) (sp : SyncPoint) → (stamped o sp).upstream_commit ≡ sp.upstream_commit
stamped-upstream none sp = refl
stamped-upstream (some existing) sp = refl

pub compare_and_set-IsGuarded :
    (sp : SyncPoint) (expected : GoString) (m : SyncPoints)
    → let (after, e) = compare_and_set sp expected m in IsGuarded sp expected m after e
unfolding compare_and_set
compare_and_set-IsGuarded sp expected m =
    let found = lookup sync_key_discrete (key_of sp) m in
    elim (Option-cases (expects (lookup sync_key_discrete (key_of sp) m) expected)) [
      | inl fits ↦
          rw (fits, compare_and_set)
            (record {
              accepted = (λ h. (expects_iff found expected).0 fits, λ h. refl);
              refused = λ h. absurd (h refl);
              stored = λ h. lookup-insert_self sync_key_discrete (key_of sp) _ m;
              others = λ key ne. lookup-insert_ne sync_key_discrete (key_of sp) key _ m ne;
            })
      | inr (x, differs) ↦
          rw (differs, compare_and_set)
            (record {
              accepted = (λ h. cc, λ h. sym differs ∙ (expects_iff found expected).1 h);
              refused = λ h. refl;
              stored = λ h. cc;
              others = λ key ne. refl;
            })
    ]

compare_and_set-refused :
    (sp : SyncPoint) (expected : GoString) (m : SyncPoints)
    → expects (lookup sync_key_discrete (key_of sp) m) expected ≡ some conflict
    → compare_and_set sp expected m ≡ (m, some conflict)
unfolding compare_and_set
compare_and_set-refused sp expected m e = rw (e, compare_and_set)

expects-conflict :
    (existing : SyncPoint) (expected : GoString)
    → existing.upstream_commit ≢ expected
    → expects (some existing) expected ≡ some conflict
unfolding expects
expects-conflict existing expected ne = ground arith

-- Of two compare-and-sets of one key that expect the same commit, of which the first is accepted and
-- moves the key to another commit, the second is refused as a conflict and changes nothing.
pub compare_and_set-compare_and_set :
    (first second : SyncPoint) (expected : GoString) (m : SyncPoints)
    → key_of first ≡ key_of second
    → first.upstream_commit ≢ expected
    → (compare_and_set first expected m).1 ≡ none
    → compare_and_set second expected (compare_and_set first expected m).0
      ≡ ((compare_and_set first expected m).0, some conflict)
compare_and_set-compare_and_set first second expected m same moved accepted =
    let after = (compare_and_set first expected m).0 in
    let there = (compare_and_set-IsGuarded first expected m).stored accepted in
    compare_and_set-refused second expected after (
      rw (← same, there)
        (expects-conflict (stamped (lookup sync_key_discrete (key_of first) m) first) expected
          (λ e. moved (sym (stamped-upstream _ first) ∙ e))))
