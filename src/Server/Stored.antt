-- ===== src/Server/Stored.antt =====
-- What storing a patch and recording a push leave behind.
use nit.Base.{
  ℕ, ◌≡◌, ◌⊎◌, ◌+◌, ◌<◌, ◌^◌, inl, inr, refl, ap, Bool, Option, some, List, [], GoString, arith, ok,
  ok-injective, Bool-cases, pos, zero, suc, length, leb,
}
use nit.Policy.Identity.{TenantId}
use nit.Store.Tables.{ArtifactKind}
use nit.Audit.Trail.{AuditRecord}
use nit.Blob.{IsBlobStore, digest_of, Fits}
use nit.Taskspec.{PatchBlob}
use nit.Server.{ServerState, Deps, record_audit}
use nit.Server.Patches.{store_patch, readable}

Fits-cases : (n : ℕ) (raw : GoString) → Fits (pos n) raw ⊎ (¬ Fits (pos n) raw)
Fits-cases zero raw = inl tt
Fits-cases (suc n) raw = elim (Bool-cases (leb (length raw) (suc n))) [
  | inl within ↦ inl (ground arith)
  | inr beyond ↦ inr (λ h. ground arith)
]

module _ {B : Type 0} where
  pub record_audit_keeps :
      (has_sink : Bool) (now : ℕ) (repository : GoString) (rs : List AuditRecord)
      (s : ServerState B)
      → let s' = record_audit has_sink now repository rs s in
        (s'.tasks ≡ s.tasks)
        × (s'.tables ≡ s.tables)
        × (s'.sync_points ≡ s.sync_points)
        × (s'.blobs ≡ s.blobs)
  unfolding record_audit
  record_audit_keeps has_sink now repository rs s = (refl, refl, refl, refl)

  module _ (hash : GoString → GoString) (deps : Deps B) (content : GoString → B → Option GoString)
      (laws : IsBlobStore hash deps.blobs content) where
    pub store_patch_ok :
        (tenant : TenantId) (now : ℕ) (raw : GoString) (kind : ArtifactKind) (end : Option ℕ)
        (s : ServerState B) (blob : PatchBlob)
        → deps.max_patch_bytes + 1 < 2 ^ 63
        → (store_patch deps tenant now raw kind end s).1 ≡ ok blob
        → let s' = (store_patch deps tenant now raw kind end s).0 in
          (s'.tasks ≡ s.tasks)
          × (blob.digest ≡ digest_of hash raw)
          × (content blob.digest s'.blobs ≡ some raw)
    unfolding store_patch
    store_patch_ok tenant now raw kind end s blob small e =
        elim (Fits-cases deps.max_patch_bytes raw) [
          | inl fits ↦
              let (puts, after) =
                laws.puts (readable raw) [] (pos deps.max_patch_bytes) s.blobs small
                  (refl, fits, inl refl) in
              let same = ap PatchBlob.digest (ok-injective (rw (puts, store_patch) at e)) in
              let there = after (digest_of hash raw) in
              rw (puts, store_patch, ← same) (refl, refl, ground (arith, there))
          | inr beyond ↦
              let (_, (fault, fails)) =
                laws.refuses (readable raw) [] (pos deps.max_patch_bytes) s.blobs small
                  (λ acceptable. beyond acceptable.1) in
              absurd (let e' = rw (fails, store_patch) at e in cc)
        ]

    pub store_patch-tasks :
        (tenant : TenantId) (now : ℕ) (raw : GoString) (kind : ArtifactKind) (end : Option ℕ)
        (s : ServerState B)
        → (store_patch deps tenant now raw kind end s).0.tasks ≡ s.tasks
    unfolding store_patch
    store_patch-tasks tenant now raw kind end s = ground arith
