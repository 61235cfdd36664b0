-- ===== src/Store/Artifacts.antt =====
-- internal/store/memory/memory.go: the artifacts and the policy versions of the store.
use nit.Base.{
  ℕ, suc, ◌+◌, Bool, false, not, ◌&&◌, Option, none, some, List, [], ◌∷◌, ◌++◌, GoString, text,
  ◌==◌, str_discrete, str_ltb, lookup, insert, is_empty, keep, find, sort_by, ltb, nat_eq,
  if◌then◌else◌, Result, ℤ, pos,
}
use nit.Store.Task.{StoreError, not_found}
use nit.Store.Memory.{next_id, up_to}
use nit.Store.Directory.{put_row, row_or_not_found}
use nit.Store.Tables.{Artifact, PolicyVersion, Tables, artifact_id_of}

abbrev pub is_artifact : GoString → GoString → Artifact → Bool
is_artifact tenant digest a = a.tenant_id == tenant && a.digest == digest

unfoldable pub artifact_by_digest : GoString → GoString → Tables → Result StoreError Artifact
artifact_by_digest tenant digest t = row_or_not_found (find (is_artifact tenant digest) t.artifacts)

-- Identical bytes are one artifact.
unfoldable pub create_artifact : Artifact → Tables → Tables × Artifact
create_artifact a t = elim (find (is_artifact a.tenant_id a.digest) t.artifacts) [
  | some existing ↦ (t, existing)
  | none ↦
      let fresh = is_empty a.id in
      let created = if fresh then record a { id = next_id (text "artifact") (t.seq + 1) } else a in
      (
        record t {
          seq = if fresh then t.seq + 1 else t.seq;
          artifacts = put_row artifact_id_of created t.artifacts;
        },
        created,
      )
]

abbrev pub has_expired : ℕ → Artifact → Bool
has_expired now a = elim a.expires_at [ none ↦ false | some end ↦ not (ltb now end) ]

unfoldable pub expired_artifacts : ℕ → ℤ → Tables → List Artifact
expired_artifacts now limit t =
    up_to limit (sort_by (λ a b. str_ltb a.id b.id) (keep (has_expired now) t.artifacts))

unfoldable pub delete_artifact : GoString → Tables → Tables
delete_artifact id t = record t { artifacts = keep (λ a. not (a.id == id)) t.artifacts }

-- `key`: the tenant and the version, with a zero byte between them.
abbrev pub version_key : GoString → GoString → GoString
version_key tenant version = tenant ++ (0 ∷ version)

-- The first sighting stays, the last one moves.
unfoldable pub record_policy_version : ℕ → PolicyVersion → Tables → Tables
record_policy_version now v t =
    let key = version_key v.tenant_id v.version in
    record t {
      policy_versions =
          insert str_discrete key
            (elim (lookup str_discrete key t.policy_versions) [
              | some existing ↦ record existing { last_loaded_at = now }
              | none ↦ record v { first_loaded_at = now; last_loaded_at = now }
            ])
            t.policy_versions;
    }

unfoldable pub attach_policy_version :
    GoString → GoString → GoString → GoString → Tables → Tables × Option StoreError
attach_policy_version tenant version ref commit t =
    let key = version_key tenant version in
    elim (lookup str_discrete key t.policy_versions) [
      | none ↦ (t, some not_found)
      | some existing ↦ (
        record t {
          policy_versions =
              insert str_discrete key (record existing { ref = ref; commit = commit })
                t.policy_versions;
        },
        none,
      )
    ]

unfoldable pub policy_version_by_version :
    GoString → GoString → Tables → Result StoreError PolicyVersion
policy_version_by_version tenant version t =
    row_or_not_found (lookup str_discrete (version_key tenant version) t.policy_versions)

-- Newest first.
abbrev pub shown_before : PolicyVersion → PolicyVersion → Bool
shown_before a b =
    if nat_eq a.first_loaded_at b.first_loaded_at
    then str_ltb b.version a.version
    else ltb b.first_loaded_at a.first_loaded_at

abbrev pub values_of : List (GoString × PolicyVersion) → List PolicyVersion
values_of [] = []
values_of ((k, v) ∷ m) = v ∷ values_of m

abbrev pub default_limit : ℤ → ℤ
default_limit (pos (suc n)) = pos (suc n)
default_limit _ = pos 50

unfoldable pub list_policy_versions : GoString → ℤ → Tables → List PolicyVersion
list_policy_versions tenant limit t =
    up_to (default_limit limit)
      (sort_by shown_before (keep (λ v. v.tenant_id == tenant) (values_of t.policy_versions)))
