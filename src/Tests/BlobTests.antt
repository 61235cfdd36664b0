-- ===== src/Tests/BlobTests.antt =====
-- pkg/blob, over a function that has the form of the hash.
use mathlib.Core.List.{[], ◌∷◌, ◌++◌}
use nit.Base.{
  ◌≡◌, ◌+◌, ◌%◌, false, Option, GoString, text, ok, err, length, arith, refl, lookup, str_discrete,
  insert, has_prefix, pos,
}
use nit.Blob.{HashLaws, IsBlobStore, Reader, valid_digest, digest_of, digest_mismatch, too_large}
use nit.Blob.Memory.{Blobs, memory, memory-IsBlobStore, put_blob, checked, received}
use nit.Blob.Fallback.{fallback, both, fallback-IsBlobStore}

abbrev pub zeros : GoString
zeros = text "000000000000000000000000000000000000000000000000000000000000000"

-- The last digit of the length, after 63 zeros.
abbrev pub toy_hash : GoString → GoString
toy_hash content = zeros ++ (48 + length content % 10) ∷ []

pub toy_hash_laws : HashLaws toy_hash
toy_hash_laws = record { length_hash = λ b. refl; hex_hash = λ b. ground arith }

abbrev patch : Reader
patch = record { bytes = text "diff"; fails = false }

abbrev patch_digest : GoString
patch_digest = text "sha256:" ++ (zeros ++ text "4")

stores_patch :
    put_blob toy_hash patch patch_digest (pos 4) []
    ≡ ((patch_digest, text "diff") ∷ [], ok (record { digest = patch_digest; size = 4 }))
unfolding put_blob checked received valid_digest has_prefix digest_of insert str_discrete
stores_patch = refl

refuses_long : put_blob toy_hash patch patch_digest (pos 3) [] ≡ ([], err too_large)
unfolding put_blob checked received valid_digest has_prefix digest_of str_discrete
refuses_long = refl

refuses_other :
    put_blob toy_hash (record { bytes = text "di"; fails = false }) patch_digest (pos 0) []
    ≡ ([], err digest_mismatch)
unfolding put_blob checked received valid_digest has_prefix digest_of str_discrete
refuses_other = refl

memory-IsBlobStore_example : IsBlobStore toy_hash (memory toy_hash) (λ d m. lookup str_discrete d m)
memory-IsBlobStore_example = memory-IsBlobStore toy_hash toy_hash_laws

abbrev pub in_map : GoString → Blobs → Option GoString
in_map d m = lookup str_discrete d m

fallback-IsBlobStore_example :
    IsBlobStore toy_hash (fallback (memory toy_hash) (memory toy_hash)) (both in_map in_map)
fallback-IsBlobStore_example =
    fallback-IsBlobStore toy_hash (memory toy_hash) (memory toy_hash) in_map in_map
      (memory-IsBlobStore toy_hash toy_hash_laws) (memory-IsBlobStore toy_hash toy_hash_laws)
