-- ===== src/Blob/Memory.antt =====
-- pkg/blob/memory.go: the store in a map.
use mathlib.Core.List.{List, [], ◌∷◌, ◌++◌}
use nit.Base.{
  ◌≡◌, ◌⊎◌, ◌↔◌, ℕ, all, All, zero, suc, ◌+◌, true, false, not, ◌&&◌, Option, none, some, GoString,
  ◌==◌, is_empty, length, ltb, if◌then◌else◌, Result, ok, err, ◌>>=◌, ◌>>◌, refuse_if, ℤ, pos,
  negsuc, lookup, insert, remove, lookup-insert, lookup-remove, str_discrete, Result-cases,
  length-take, is_empty_iff, inl, inr, arith, refl, has_prefix, drop, ap, sym, ◌∙◌,
}
use nit.Blob.{
  Fits, BlobError, malformed_digest, digest_mismatch, too_large, Descriptor, Reader, valid_digest,
  HashLaws, digest_of, descriptor_of, read_all, read_limited, digest_prefix, BlobStore, Acceptable,
  IsBlobStore, IsLimit, IsDigest, IsHex, is_hex, one_past, or_missing, sized,
}

abbrev pub Blobs : Type 0
Blobs = List (GoString × GoString)

-- What `Put` reads: up to one byte past a positive limit.
unfoldable pub received : Reader → ℤ → Result BlobError GoString
received r (pos zero) = read_all r
received r (negsuc n) = read_all r
received r (pos (suc n)) = read_limited (one_past (suc n)) r >>= λ content.
    refuse_if (ltb (suc n) (length content)) too_large >> ok content

-- The content that `Put` stores.
unfoldable pub checked : (GoString → GoString) → Reader → GoString → ℤ → Result BlobError GoString
checked hash r expected limit =
    refuse_if (not (is_empty expected) && not (valid_digest expected)) malformed_digest
    >> (received r limit >>= λ content.
        refuse_if (not (is_empty expected) && not (digest_of hash content == expected))
          digest_mismatch
        >> ok content)

unfoldable pub put_blob :
    (GoString → GoString) → Reader → GoString → ℤ → Blobs → Blobs × Result BlobError Descriptor
put_blob hash r expected limit m = elim (checked hash r expected limit) [
  | err e ↦ (m, err e)
  | ok content ↦
      (insert str_discrete (digest_of hash content) content m, ok (descriptor_of hash content))
]

unfoldable pub get_blob : GoString → Blobs → Result BlobError GoString
get_blob digest m =
    refuse_if (not (valid_digest digest)) malformed_digest
    >> or_missing (lookup str_discrete digest m)

unfoldable pub stat_blob : GoString → Blobs → Result BlobError Descriptor
stat_blob digest m =
    refuse_if (not (valid_digest digest)) malformed_digest
    >> (or_missing (lookup str_discrete digest m) >>= λ content. ok (sized digest content))

unfoldable pub delete_blob : GoString → Blobs → Blobs × Option BlobError
delete_blob digest m =
    if valid_digest digest then (remove str_discrete digest m, none) else (m, some malformed_digest)

unfoldable pub memory : (GoString → GoString) → BlobStore Blobs
memory hash = record { put = put_blob hash; get = get_blob; stat = stat_blob; delete = delete_blob }

is_hex_iff : (c : ℕ) → (is_hex c ≡ true) ↔ IsHex c
is_hex_iff c = ground arith

all-is_hex_iff : (ds : GoString) → (all is_hex ds ≡ true) ↔ All IsHex ds
all-is_hex_iff [] = ground arith
all-is_hex_iff (c ∷ ds) = ground (arith, is_hex_iff c, all-is_hex_iff ds)

split-has_prefix : (s p : GoString) → has_prefix s p ≡ true → s ≡ p ++ drop (length p) s
unfolding has_prefix
split-has_prefix s [] h = refl
split-has_prefix [] (c ∷ p) h = absurd cc
split-has_prefix (b ∷ s) (c ∷ p) h = ground (arith, split-has_prefix s p)

-- A text that starts with the prefix.
prefixed_iff :
    (hex : GoString)
    → (valid_digest (digest_prefix ++ hex) ≡ true) ↔ ((length hex ≡ 64) × All IsHex hex)
unfolding valid_digest has_prefix
prefixed_iff hex = ground (arith, all-is_hex_iff hex)

has_prefix-valid_digest : (d : GoString) → valid_digest d ≡ true → has_prefix d digest_prefix ≡ true
unfolding valid_digest
has_prefix-valid_digest d h = ground arith

-- `ValidateDigest` takes the digests.
pub valid_digest_iff : (d : GoString) → (valid_digest d ≡ true) ↔ IsDigest d
valid_digest_iff d = (
  λ valid.
      let split = split-has_prefix d digest_prefix (has_prefix-valid_digest d valid) in
      let (long, hex) = (prefixed_iff (drop 7 d)).0 (ap valid_digest (sym split) ∙ valid) in
      (drop 7 d, split, long, hex),
  λ digest.
      let (digits, split, long, hex) = digest in
      ap valid_digest split ∙ (prefixed_iff digits).1 (long, hex),
)

module _ (hash : GoString → GoString) (laws : HashLaws hash) where
  digest_of_valid : (b : GoString) → valid_digest (digest_of hash b) ≡ true
  unfolding valid_digest digest_of has_prefix
  digest_of_valid b = ground (arith, laws.length_hash b, laws.hex_hash b)

  received_ok :
      (r : Reader) (limit : ℤ)
      → IsLimit limit
      → r.fails ≡ false
      → Fits limit r.bytes
      → received r limit ≡ ok r.bytes
  unfolding received
  received_ok r (pos zero) small reads fits = ground arith
  received_ok r (negsuc n) small reads fits = ground arith
  received_ok r (pos (suc n)) small reads fits = ground arith

  received-eq-ok :
      (r : Reader) (limit : ℤ) (c : GoString)
      → IsLimit limit
      → received r limit ≡ ok c
      → (c ≡ r.bytes) × (r.fails ≡ false) × Fits limit r.bytes
  unfolding received
  received-eq-ok r (pos zero) c small e = ground arith
  received-eq-ok r (negsuc n) c small e = ground arith
  received-eq-ok r (pos (suc n)) c small e =
      let long = length-take (suc n + 1) r.bytes in ground arith

  checked_ok :
      (r : Reader) (expected : GoString) (limit : ℤ)
      → IsLimit limit
      → Acceptable hash r expected limit
      → checked hash r expected limit ≡ ok r.bytes
  unfolding checked
  checked_ok r expected limit small (reads, fits, named) =
      let got = received_ok r limit small reads fits in
      let valid = digest_of_valid r.bytes in ground arith

  checked_refuses :
      (r : Reader) (expected : GoString) (limit : ℤ)
      → IsLimit limit
      → ¬ Acceptable hash r expected limit
      → (e : BlobError) × (checked hash r expected limit ≡ err e)
  unfolding checked
  checked_refuses r expected limit small h = elim (Result-cases (checked hash r expected limit)) [
    | inl (e, f) ↦ (e, f)
    | inr (c, f) ↦ elim (Result-cases (received r limit)) [
      | inl (e, g) ↦ absurd (ground arith)
      | inr (got, g) ↦
          let (same, reads, fits) = received-eq-ok r limit got small g in
          let named : (expected ≡ []) ⊎ (expected ≡ digest_of hash r.bytes) =
            ground (arith, is_empty_iff expected) in
          absurd (h (reads, fits, named))
    ]
  ]

  -- The store in memory keeps what a blob store promises, where its contents are those of its map:
  -- `Get` and `Stat` find what is there and refuse a malformed digest; `Put` stores what can be read,
  -- fits and has the announced digest under its own digest, and otherwise returns an error and stores
  -- nothing, for every limit but the greatest int64; `Delete` removes the one blob and no error, or
  -- refuses a malformed digest. A digest is well formed if it is the prefix and 64 lower-case
  -- hexadecimal digits.
  pub memory-IsBlobStore : IsBlobStore hash (memory hash) (λ d m. lookup str_discrete d m)
  unfolding memory get_blob stat_blob put_blob delete_blob
  memory-IsBlobStore = record {
    gets = λ d m good. ground (arith, valid_digest_iff d);
    gets_no = λ d m bad. ground (arith, valid_digest_iff d);
    stats = λ d m. ground arith;
    puts = λ r expected limit m small good.
        let stored = checked_ok r expected limit small good in
        rw (stored, put_blob)
          (
            refl,
            λ d. ground (arith, lookup-insert str_discrete (digest_of hash r.bytes) d r.bytes m),
          );
    refuses = λ r expected limit m small bad.
        let (e, stops) = checked_refuses r expected limit small bad in
        rw (stops, put_blob) (refl, (e, refl));
    deletes = λ d m valid.
        rw ((valid_digest_iff d).1 valid, delete_blob)
          (refl, λ other. ground (arith, lookup-remove str_discrete d other m));
    spares = λ d m invalid. ground (arith, valid_digest_iff d);
  }
