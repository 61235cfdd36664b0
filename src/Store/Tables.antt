-- ===== src/Store/Tables.antt =====
-- internal/store/memory/memory.go: workspaces, repositories, artifacts and policy versions, with
-- their records of pkg/store/models.go.
--
-- A map is the list of its values, each under its own ID, in the order in which a `range` loop meets
-- them; a method is one step under the mutex, and the clock is an argument. An instant is its number
-- of nanoseconds.
use nit.Base.{
  ℕ, ◌+◌, Bool, ◌&&◌, Option, none, some, List, [], ◌∷◌, GoString, text, ◌==◌, str_discrete,
  str_ltb, lookup, insert, is_empty, is_some, keep, find, sort_by, if◌then◌else◌, Result,
}
use nit.Store.Task.{StoreError, not_found}
use nit.Store.Memory.{next_id}
use nit.Store.Directory.{put_row, write_row, row_or_not_found}

pub record Workspace : Type 0 where
  pub id : GoString
  pub tenant_id : GoString
  pub user_id : GoString
  pub label : GoString
  pub created_at : ℕ
  pub last_seen_at : Option ℕ

pub record RepositoryRow : Type 0 where
  pub id : GoString
  pub tenant_id : GoString
  pub policy_repo_id : GoString
  pub remote : GoString
  pub forge : GoString
  pub default_branch : GoString
  pub policy_version : GoString
  pub created_at : ℕ
  pub updated_at : ℕ

pub data ArtifactKind : Type 0 where
  push_patch pull_patch : ArtifactKind

pub record Artifact : Type 0 where
  pub id : GoString
  pub tenant_id : GoString
  pub digest : GoString
  pub kind : ArtifactKind
  pub size : ℕ
  pub uncompressed_size : ℕ
  pub encoding : GoString
  pub locator : GoString
  pub created_at : ℕ
  pub expires_at : Option ℕ

pub record PolicyVersion : Type 0 where
  pub tenant_id : GoString
  pub version : GoString
  pub ref : GoString
  pub commit : GoString
  pub first_loaded_at : ℕ
  pub last_loaded_at : ℕ

-- The fields of the store that these tables use, and a counter for their IDs.
pub record Tables : Type 0 where
  pub seq : ℕ
  pub workspaces : List Workspace
  pub repositories : List RepositoryRow
  pub artifacts : List Artifact
  pub policy_versions : List (GoString × PolicyVersion)

abbrev pub workspace_id_of : Workspace → GoString
workspace_id_of w = w.id

abbrev pub repository_id_of : RepositoryRow → GoString
repository_id_of r = r.id

abbrev pub artifact_id_of : Artifact → GoString
artifact_id_of a = a.id

unfoldable pub workspace_by_id : GoString → Tables → Result StoreError Workspace
workspace_by_id id t = row_or_not_found (find (λ w. w.id == id) t.workspaces)

unfoldable pub workspaces_of_user : GoString → Tables → List Workspace
workspaces_of_user user t =
    sort_by (λ a b. str_ltb a.id b.id) (keep (λ w. w.user_id == user) t.workspaces)

unfoldable pub create_workspace : Workspace → Tables → Tables × Workspace
create_workspace w t =
    let fresh = is_empty w.id in
    let created = if fresh then record w { id = next_id (text "ws") (t.seq + 1) } else w in
    (
      record t {
        seq = if fresh then t.seq + 1 else t.seq;
        workspaces = put_row workspace_id_of created t.workspaces;
      },
      created,
    )

unfoldable pub touch_workspace : GoString → ℕ → Tables → Tables × Option StoreError
touch_workspace id at t =
    if is_some (find (λ w. w.id == id) t.workspaces)
    then (
      record t {
        workspaces =
            write_row workspace_id_of id (λ w. record w { last_seen_at = some at }) t.workspaces;
      },
      none,
    )
    else (t, some not_found)

unfoldable pub repository_by_id : GoString → Tables → Result StoreError RepositoryRow
repository_by_id id t = row_or_not_found (find (λ r. r.id == id) t.repositories)

abbrev pub is_repository : GoString → GoString → RepositoryRow → Bool
is_repository tenant policy_id r = r.tenant_id == tenant && r.policy_repo_id == policy_id

unfoldable pub repository_by_policy_id :
    GoString → GoString → Tables → Result StoreError RepositoryRow
repository_by_policy_id tenant policy_id t =
    row_or_not_found (find (is_repository tenant policy_id) t.repositories)

unfoldable pub list_repositories : GoString → Tables → List RepositoryRow
list_repositories tenant t =
    sort_by (λ a b. str_ltb a.policy_repo_id b.policy_repo_id)
      (keep (λ r. r.tenant_id == tenant) t.repositories)

-- `byPolicyID` of `Reconcile`, built once: of two rows with one name the later one stays.
unfoldable pub index_repositories :
    GoString
    → List RepositoryRow
    → List (GoString × RepositoryRow)
    → List (GoString × RepositoryRow)
index_repositories tenant [] index = index
index_repositories tenant (r ∷ rs) index =
    index_repositories tenant rs
      (if r.tenant_id == tenant then insert str_discrete r.policy_repo_id r index else index)

-- One round of its second loop.
unfoldable pub reconcile_one :
    GoString → List (GoString × RepositoryRow) → RepositoryRow → Tables → Tables
reconcile_one tenant index incoming t = elim (lookup str_discrete incoming.policy_repo_id index) [
  | some existing ↦
      let updated = record incoming { id = existing.id; created_at = existing.created_at } in
      record t { repositories = put_row repository_id_of updated t.repositories }
  | none ↦
      let fresh = is_empty incoming.id in
      let created = record incoming {
        id = if fresh then next_id (text "repo") (t.seq + 1) else incoming.id;
        tenant_id = tenant;
      } in
      record t {
        seq = if fresh then t.seq + 1 else t.seq;
        repositories = put_row repository_id_of created t.repositories;
      }
]

unfoldable pub reconcile_all :
    GoString → List (GoString × RepositoryRow) → List RepositoryRow → Tables → Tables
unfolding reconcile_one
reconcile_all tenant index [] t = t
reconcile_all tenant index (r ∷ rs) t =
    reconcile_all tenant index rs (reconcile_one tenant index r t)

unfoldable pub reconcile : GoString → List RepositoryRow → Tables → Tables
unfolding index_repositories reconcile_all
reconcile tenant repos t =
    reconcile_all tenant (index_repositories tenant t.repositories []) repos t
