-- ===== src/Server/Patches.antt =====
-- internal/server/push.go and tasks.go: patches are uploaded, loaded and stored.
use nit.Base.{
  ℕ, Bool, false, Option, [], GoString, text, is_empty, length, ltb, take, Result, ok, err, ◌>>=◌,
  ◌>>◌, refuse_if, ℤ, pos, negsuc,
}
use nit.Policy.Identity.{TenantId}
use nit.Blob.{BlobError, blob_not_found, too_large, digest_mismatch, Reader, one_past}
use nit.Compress.{CompressError, payload_too_large, encoding_none, decompress}
use nit.Taskspec.{PatchBlob}
use nit.Store.Tables.{ArtifactKind}
use nit.Store.Artifacts.{create_artifact}
use nit.Server.{ServerState, Deps, ApiError, fails_with, bad_request, internal_error}

abbrev pub patch_too_large : ApiError
patch_too_large = fails_with 413 (text "patch_too_large")

abbrev pub announces_more : ℕ → ℤ → Bool
announces_more max (pos n) = ltb max n
announces_more max (negsuc n) = false

-- What `Get` of the blobs answers for a patch that a client names.
abbrev pub or_unknown_blob : Result BlobError GoString → Result ApiError GoString
or_unknown_blob (err blob_not_found) = err (fails_with 400 (text "unknown_blob"))
or_unknown_blob (err e) = err internal_error
or_unknown_blob (ok content) = ok content

abbrev pub or_undecodable : Result CompressError GoString → Result ApiError GoString
or_undecodable (err payload_too_large) = err patch_too_large
or_undecodable (err e) = err bad_request
or_undecodable (ok raw) = ok raw

-- What the `io.LimitReader` lets through of the content: an opened blob is read without a failure.
unfoldable pub load_patch : {B : Type 0} → Deps B → PatchBlob → B → Result ApiError GoString
load_patch deps descriptor blobs =
    refuse_if (is_empty descriptor.digest) bad_request
    >> (refuse_if (announces_more deps.max_patch_bytes descriptor.size) patch_too_large
        >> (or_unknown_blob (deps.blobs.get descriptor.digest blobs) >>= λ content.
            let compressed = take (one_past deps.max_patch_bytes) content in
            refuse_if (ltb deps.max_patch_bytes (length compressed)) patch_too_large
            >> or_undecodable
                (decompress deps.zstd compressed descriptor.encoding (pos deps.max_patch_bytes))))

abbrev pub readable : GoString → Reader
readable content = record { bytes = content; fails = false }

-- The blob, and then its artifact.
unfoldable pub store_patch :
    {B : Type 0}
    → Deps B
    → TenantId
    → ℕ
    → GoString
    → ArtifactKind
    → Option ℕ
    → ServerState B
    → ServerState B × Result ApiError PatchBlob
store_patch deps tenant now raw kind expires_at s =
    let (blobs, put) = deps.blobs.put (readable raw) [] (pos deps.max_patch_bytes) s.blobs in
    elim put [
      | err e ↦ (record s { blobs = blobs }, err internal_error)
      | ok descriptor ↦
          let (tables, _) =
            create_artifact
              (record {
                id = [];
                tenant_id = tenant;
                digest = descriptor.digest;
                kind = kind;
                size = descriptor.size;
                uncompressed_size = length raw;
                encoding = encoding_none;
                locator = descriptor.digest;
                created_at = now;
                expires_at = expires_at;
              })
              s.tables in
          (
            record s { blobs = blobs; tables = tables },
            ok (record {
              digest = descriptor.digest;
              size = pos descriptor.size;
              encoding = encoding_none;
              uncompressed_size = pos (length raw);
            }),
          )
    ]

-- How a refused upload is answered.
abbrev upload_error : BlobError → ApiError
upload_error too_large = patch_too_large
upload_error digest_mismatch = fails_with 400 (text "digest_mismatch")
upload_error e = internal_error

-- `handleUploadBlob`: the body, and the headers with its digest and its encoding.
unfoldable pub handle_upload_blob :
    {B : Type 0}
    → Deps B
    → Reader
    → GoString
    → GoString
    → ServerState B
    → ServerState B × Result ApiError PatchBlob
handle_upload_blob deps body expected encoding s =
    let (blobs, put) = deps.blobs.put body expected (pos deps.max_patch_bytes) s.blobs in
    elim put [
      | err e ↦ (record s { blobs = blobs }, err (upload_error e))
      | ok descriptor ↦ (
        record s { blobs = blobs },
        ok (record {
          digest = descriptor.digest;
          size = pos descriptor.size;
          encoding = encoding;
          uncompressed_size = pos 0;
        }),
      )
    ]
