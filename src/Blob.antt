-- ===== src/Blob.antt =====
-- pkg/blob: stores of byte payloads under their digests.
--
-- SHA-256 in hexadecimal is a parameter, of which only its form is relied on. A payload that is
-- read is its bytes, and whether the reader fails after them.
pub mod Memory
pub mod Fallback
use mathlib.Core.List.{List, [], ◌∷◌, ◌++◌}
use nit.Base.{
  ◌≡◌, ◌≢◌, ◌⊎◌, ◌↔◌, ◌≤◌, ◌<◌, ◌^◌, All, ℕ, zero, suc, ◌+◌, Bool, true, false, not, ◌&&◌, ◌||◌,
  Option, none, some, GoString, text, ◌==◌, is_empty, length, take, drop, ltb, leb, nat_eq, all,
  has_prefix, if◌then◌else◌, Result, ok, err, ◌>>=◌, ◌>>◌, refuse_if, ℤ, pos, negsuc,
}

pub data BlobError : Type 0 where
  malformed_digest : BlobError
  blob_not_found : BlobError
  digest_mismatch : BlobError
  too_large : BlobError
  unreadable : BlobError

pub record Descriptor : Type 0 where
  pub digest : GoString
  pub size : ℕ

-- An `io.Reader`: the bytes that it has, and whether an error and not the end of file follows.
pub record Reader : Type 0 where
  pub bytes : GoString
  pub fails : Bool

abbrev pub digest_prefix : GoString
digest_prefix = text "sha256:"

abbrev pub is_hex : ℕ → Bool
is_hex c = (leb 48 c && leb c 57) || (leb 97 c && leb c 102)

-- `ValidateDigest`.
unfoldable pub valid_digest : GoString → Bool
valid_digest digest =
    nat_eq (length digest) 71 && (has_prefix digest digest_prefix && all is_hex (drop 7 digest))

-- The hexadecimal SHA-256 of bytes has 64 digits.
pub record HashLaws (hash : GoString → GoString) : Type 0 where
  pub length_hash : (b : GoString) → length (hash b) ≡ 64
  pub hex_hash : (b : GoString) → all is_hex (hash b) ≡ true

-- `Digest`.
unfoldable pub digest_of : (GoString → GoString) → GoString → GoString
digest_of hash content = digest_prefix ++ hash content

abbrev pub descriptor_of : (GoString → GoString) → GoString → Descriptor
descriptor_of hash content = record { digest = digest_of hash content; size = length content }

-- `io.ReadAll`, and the same through an `io.LimitReader`, which ends the reading at its limit.
abbrev pub read_all : Reader → Result BlobError GoString
read_all r = if r.fails then err unreadable else ok r.bytes

abbrev pub read_limited : ℕ → Reader → Result BlobError GoString
read_limited limit r = if leb limit (length r.bytes) then ok (take limit r.bytes) else read_all r

-- The operations of a store whose state is a `S`: Put, Get, Stat and Delete.
pub record BlobStore (S : Type 0) : Type 0 where
  pub put : Reader → GoString → ℤ → S → S × Result BlobError Descriptor
  pub get : GoString → S → Result BlobError GoString
  pub stat : GoString → S → Result BlobError Descriptor
  pub delete : GoString → S → S × Option BlobError

-- A payload that `Put` has to take: it can be read, is within a positive limit, and has the digest
-- that was announced, if one was.
abbrev pub Fits : ℤ → GoString → Type 0
Fits (pos zero) content = Unit
Fits (pos (suc n)) content = length content ≤ suc n
Fits (negsuc n) content = Unit

abbrev pub Acceptable : (GoString → GoString) → Reader → GoString → ℤ → Type 0
Acceptable hash r expected limit =
    (r.fails ≡ false) × Fits limit r.bytes × ((expected ≡ []) ⊎ (expected ≡ digest_of hash r.bytes))

abbrev pub or_missing {ℓ} : {A : Type ℓ} → Option A → Result BlobError A
or_missing none = err blob_not_found
or_missing (some a) = ok a

abbrev pub sized : GoString → GoString → Descriptor
sized digest content = record { digest = digest; size = length content }

-- `maxSize + 1`, as what an `io.LimitReader` reads at most: at the greatest int64 the sum wraps to the
-- least one, and a reader that is given no positive limit reads nothing.
abbrev pub one_past : ℕ → ℕ
one_past n = if ltb (n + 1) (2 ^ 63) then n + 1 else 0

-- A limit that does not wrap.
abbrev pub IsLimit : ℤ → Type 0
IsLimit (pos n) = n + 1 < 2 ^ 63
IsLimit (negsuc n) = Unit

-- A digest, stated without `ValidateDigest`: the prefix and 64 lower-case hexadecimal digits.
abbrev pub IsHex : ℕ → Type 0
IsHex c = ((48 ≤ c) × (c ≤ 57)) ⊎ ((97 ≤ c) × (c ≤ 102))

abbrev pub IsDigest : GoString → Type 0
IsDigest d =
    (digits : GoString) × (d ≡ text "sha256:" ++ digits) × (length digits ≡ 64) × All IsHex digits

-- What a store promises, for the contents that it has under each digest and for limits that do not
-- wrap.
pub record IsBlobStore (hash : GoString → GoString) {S : Type 0} (store : BlobStore S)
    (content : GoString → S → Option GoString) : Type 0 where
  pub gets : (d : GoString) (s : S) → IsDigest d → store.get d s ≡ or_missing (content d s)
  pub gets_no : (d : GoString) (s : S) → ¬ IsDigest d → store.get d s ≡ err malformed_digest
  pub stats : (d : GoString) (s : S) → store.stat d s ≡ (store.get d s >>= λ c. ok (sized d c))
  pub puts :
      (r : Reader) (expected : GoString) (limit : ℤ) (s : S)
      → IsLimit limit
      → Acceptable hash r expected limit
      → ((store.put r expected limit s).1 ≡ ok (descriptor_of hash r.bytes))
        × ((d : GoString)
            → content d (store.put r expected limit s).0
              ≡ (if d == digest_of hash r.bytes then some r.bytes else content d s))
  pub refuses :
      (r : Reader) (expected : GoString) (limit : ℤ) (s : S)
      → IsLimit limit
      → ¬ Acceptable hash r expected limit
      → ((store.put r expected limit s).0 ≡ s)
        × ((e : BlobError) × ((store.put r expected limit s).1 ≡ err e))
  pub deletes :
      (d : GoString) (s : S)
      → IsDigest d
      → ((store.delete d s).1 ≡ none)
        × ((other : GoString)
            → content other (store.delete d s).0 ≡ (if other == d then none else content other s))
  pub spares : (d : GoString) (s : S) → ¬ IsDigest d → store.delete d s ≡ (s, some malformed_digest)
