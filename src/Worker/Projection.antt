-- ===== src/Worker/Projection.antt =====
-- internal/worker/pull.go: a projection is looked up, or computed, stored and recorded for others.
use nit.Base.{
  ℕ, ◌+◌, Bool, true, false, Option, none, some, [], ◌++◌, GoString, text, is_empty, length,
  if◌then◌else◌, Result, ok, err, ◌>>=◌, pos,
}
use nit.Policy.Identity.{Subject}
use nit.Policy.Pattern.{Doublestar}
use nit.Policy.Rule.{read}
use nit.Policy.Engine.{Policy}
use nit.Policy.Profile.{profile}
use nit.Patch.Parse.{Gitdiff}
use nit.Store.Tables.{RepositoryRow, pull_patch}
use nit.Store.Artifacts.{create_artifact}
use nit.Blob.{Reader}
use nit.Compress.{compress}
use nit.PullCache.{ProjectionKey, Entry, hash_key, get_projection, put_projection}
use nit.Taskspec.{PatchBlob, PullSpec}
use nit.Worker.State.{TaskError, transient, WorkerDeps, WorkerState}
use nit.Worker.Filter.{Filtered, filter_for_reader}

module _ ⦃ds : Doublestar⦄ ⦃gd : Gitdiff⦄ {B G : Type 0} (deps : WorkerDeps B G) (spec : PullSpec)
    (now : ℕ) where
  -- `storePullPatch`.
  unfoldable pub store_pull_patch :
      GoString → WorkerState B G → WorkerState B G × Result TaskError PatchBlob
  store_pull_patch filtered s = elim (compress deps.zstd filtered (text "zstd")) [
    | err e ↦ (s, err transient)
    | ok compressed ↦
        let reader : Reader = record { bytes = compressed; fails = false } in
        let (blobs, stored) = deps.blobs.put reader [] (pos deps.max_patch_bytes) s.blobs in
        elim stored [
          | err e ↦ (record s { blobs = blobs }, err transient)
          | ok descriptor ↦
              let (tables, _) =
                create_artifact
                  (record {
                    id = [];
                    tenant_id = deps.tenant;
                    digest = descriptor.digest;
                    kind = pull_patch;
                    size = descriptor.size;
                    uncompressed_size = length filtered;
                    encoding = text "zstd";
                    locator = descriptor.digest;
                    created_at = now;
                    expires_at = some (now + deps.artifact_ttl);
                  })
                  s.tables in
              (
                record s { blobs = blobs; tables = tables },
                ok (record {
                  digest = descriptor.digest;
                  size = pos descriptor.size;
                  encoding = text "zstd";
                  uncompressed_size = pos (length filtered);
                }),
              )
        ]
  ]

  -- The entry for a projection that was filtered: it has a patch if one is left.
  abbrev pub entry_of : Filtered → Option PatchBlob → Entry
  entry_of f patch = record {
    patch = patch;
    files_total = f.total;
    files_delivered = f.delivered;
    files_withheld = f.withheld;
  }

  -- What is filtered is stored, and recorded for others.
  unfoldable pub store_projection :
      GoString → Filtered → WorkerState B G → WorkerState B G × Result TaskError Entry
  unfolding store_pull_patch
  store_projection hashed f s =
      if is_empty f.patch
      then (
        record s { pulls = put_projection hashed (entry_of f none) now s.pulls },
        ok (entry_of f none),
      )
      else let (s', stored) = store_pull_patch f.patch s in
        elim stored [
          | err e ↦ (s', err e)
          | ok blob ↦ (
            record s' { pulls = put_projection hashed (entry_of f (some blob)) now s'.pulls },
            ok (entry_of f (some blob)),
          )
        ]

  -- The `if !cached` block.
  unfoldable pub compute_projection :
      GoString
      → RepositoryRow
      → Policy
      → GoString
      → GoString
      → WorkerState B G
      → WorkerState B G × Result TaskError Entry
  unfolding filter_for_reader store_projection
  compute_projection hashed repo policy from tip s = elim (deps.git.diff from tip s.git) [
    | none ↦ (s, err transient)
    | some raw ↦
        elim (filter_for_reader deps.guards policy repo.policy_repo_id spec.branch
          spec.policy_user_id raw) [ err e ↦ (s, err e) | ok f ↦ store_projection hashed f s ]
  ]

  abbrev pub projection_key : RepositoryRow → Policy → GoString → GoString → Subject → ProjectionKey
  projection_key repo policy from tip reader = record {
    repository = spec.remote;
    from = from;
    to = tip;
    profile =
        profile deps.sha256_hex policy repo.policy_repo_id (text "refs/heads/" ++ spec.branch) read
          reader;
  }

  -- The entry that the pull answers with, and whether it was there before. A blob that cannot be
  -- found is a miss.
  unfoldable pub find_projection :
      RepositoryRow
      → Policy
      → GoString
      → GoString
      → Subject
      → WorkerState B G
      → WorkerState B G × Result TaskError (Entry × Bool)
  unfolding compute_projection
  find_projection repo policy from tip reader s =
      let hashed = hash_key deps.sha256_hex (projection_key repo policy from tip reader) in
      let (pulls, found) = get_projection (λ d. deps.blobs.stat d s.blobs) hashed now s.pulls in
      let looked = record s { pulls = pulls } in
      elim found [
        | some entry ↦ (looked, ok (entry, true))
        | none ↦
            let (s', made) = compute_projection hashed repo policy from tip looked in
            (s', made >>= λ entry. ok (entry, false))
      ]
