-- ===== src/Blob/Fallback.antt =====
-- pkg/blob/fallback.go: a store that reads from a second one what the first lacks.
use nit.Base.{Option, none, some, GoString, Result, ok, err, ℤ, arith, refl}
use nit.Blob.{BlobError, blob_not_found, Descriptor, Reader, BlobStore, IsBlobStore}

-- The second answer, where the first is `ErrNotFound`.
unfoldable pub unless_found {ℓ} :
    {A : Type ℓ} → Result BlobError A → Result BlobError A → Result BlobError A
unless_found (err blob_not_found) second = second
unless_found (err e) second = err e
unless_found (ok a) second = ok a

module _ {S T : Type 0} (primary : BlobStore S) (secondary : BlobStore T) where
  unfoldable pub put_primary : Reader → GoString → ℤ → S × T → (S × T) × Result BlobError Descriptor
  put_primary r expected limit (s, t) =
      let (s', out) = primary.put r expected limit s in ((s', t), out)

  unfoldable pub delete_both : GoString → S × T → (S × T) × Option BlobError
  delete_both d (s, t) =
      let (s', e) = primary.delete d s in
      let (t', e') = secondary.delete d t in
      elim e [ some fault ↦ ((s', t), some fault) | none ↦ ((s', t'), e') ]

  unfoldable pub fallback : BlobStore (S × T)
  fallback = record {
    put = put_primary;
    get = λ d both. unless_found (primary.get d both.0) (secondary.get d both.1);
    stat = λ d both. unless_found (primary.stat d both.0) (secondary.stat d both.1);
    delete = delete_both;
  }

abbrev pub or_else {ℓ} : {A : Type ℓ} → Option A → Option A → Option A
or_else none second = second
or_else (some a) second = some a

-- The contents of the two stores, seen as one.
abbrev pub both :
    {S T : Type 0}
    → (GoString → S → Option GoString)
    → (GoString → T → Option GoString)
    → GoString
    → S × T
    → Option GoString
both first second d st = or_else (first d st.0) (second d st.1)

module _ {S T : Type 0} (hash : GoString → GoString) (primary : BlobStore S)
    (secondary : BlobStore T) (first : GoString → S → Option GoString)
    (second : GoString → T → Option GoString) (p : IsBlobStore hash primary first)
    (q : IsBlobStore hash secondary second) where
  -- A fallback over two stores that keep what a blob store promises keeps it too, where its contents
  -- are those of the first store, and of the second under the digests that the first lacks.
  pub fallback-IsBlobStore : IsBlobStore hash (fallback primary secondary) (both first second)
  unfolding fallback put_primary delete_both unless_found
  fallback-IsBlobStore = record {
    gets = λ d st good. ground (arith, p.gets d st.0 good, q.gets d st.1 good);
    gets_no = λ d st bad. ground (arith, p.gets_no d st.0 bad);
    stats = λ d st. ground (arith, p.stats d st.0, q.stats d st.1);
    puts = λ r expected limit st small good.
        let (out, content) = p.puts r expected limit st.0 small good in
        (out, λ d. ground (arith, content d));
    refuses = λ r expected limit st small bad.
        let (same, (e, out)) = p.refuses r expected limit st.0 small bad in
        (rw same refl, (e, out));
    deletes = λ d st valid.
        let (done, content) = p.deletes d st.0 valid in
        let (done', content') = q.deletes d st.1 valid in
        rw (done, delete_both) (done', λ other. ground (arith, content other, content' other));
    spares = λ d st invalid. ground (arith, p.spares d st.0 invalid);
  }
