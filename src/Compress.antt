-- ===== src/Compress.antt =====
-- internal/compress/zstd.go: payloads with an encoding. The zstd library is the parameter `Zstd`.
use nit.Base.{
  ℕ, zero, suc, ◌≤◌, ◌≡◌, Bool, false, ◌||◌, Option, none, some, GoString, text, ◌==◌, is_empty,
  length, ltb, if◌then◌else◌, Result, ok, err, ℤ, pos, negsuc, arith,
}
use nit.Blob.{Reader, read_all, read_limited, one_past}

-- What a writer of the library makes of a payload; and the reader that it opens on a payload: `none`
-- is an error of either.
pub record Zstd : Type 0 where
  pub pack : GoString → Option GoString
  pub open_reader : GoString → Option Reader

pub data CompressError : Type 0 where
  payload_too_large : CompressError
  zstd_failed : CompressError
  unsupported_encoding : GoString → CompressError

abbrev pub encoding_none : GoString
encoding_none = text "none"

abbrev pub is_zstd : GoString → Bool
is_zstd encoding = encoding == text "zstd" || is_empty encoding

unfoldable pub compress : Zstd → GoString → GoString → Result CompressError GoString
compress z content encoding =
    if encoding == encoding_none
    then ok content
    else if is_zstd encoding
    then elim (z.pack content) [ none ↦ err zstd_failed | some packed ↦ ok packed ]
    else err (unsupported_encoding encoding)

-- The test of a length against a limit that is positive.
abbrev pub exceeds : ℤ → GoString → Bool
exceeds (pos zero) content = false
exceeds (pos (suc n)) content = ltb (suc n) (length content)
exceeds (negsuc n) content = false

-- What is read from the decoder. A limit bounds the reading to one byte more, where that is an int64.
unfoldable pub unpack : ℤ → Reader → Result CompressError GoString
unpack (pos (suc n)) r = elim (read_limited (one_past (suc n)) r) [
  | err e ↦ err zstd_failed
  | ok out ↦ if ltb (suc n) (length out) then err payload_too_large else ok out
]
unpack max r = elim (read_all r) [ err e ↦ err zstd_failed | ok out ↦ ok out ]

unfoldable pub decompress : Zstd → GoString → GoString → ℤ → Result CompressError GoString
unfolding unpack
decompress z content encoding max =
    if encoding == encoding_none
    then (if exceeds max content then err payload_too_large else ok content)
    else if is_zstd encoding
    then elim (z.open_reader content) [ none ↦ err zstd_failed | some r ↦ unpack max r ]
    else err (unsupported_encoding encoding)

-- Whatever the encoding and whatever the decoder yields, what `Decompress` returns under a positive
-- limit is within the limit.
pub length-decompress :
    (z : Zstd) (content encoding out : GoString) (n : ℕ)
    → decompress z content encoding (pos (suc n)) ≡ ok out
    → length out ≤ suc n
unfolding decompress unpack
length-decompress z content encoding out n e = ground arith
