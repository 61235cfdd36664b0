-- ===== src/Server/Limit.antt =====
-- A server whose limit on patches is the greatest int64 takes no push: it reads nothing of a patch.
use nit.Base.{
  ◌≡◌, inl, inr, ◌+◌, ◌<◌, ◌^◌, ltb, GoString, [], ap, ◌∙◌, sym, arith, Bool-cases, ok, err, Result,
  >>=-ok_cases, refuse_if, pos, is_empty, zero, suc, ℕ, refl,
}
use nit.Policy.Pattern.{Doublestar}
use nit.Patch.Parse.{Gitdiff, parse, parse_bounds}
use nit.Patch.Sections.{empty, split_sections, scan_lines, lines_of}
use nit.Auth.{Principal}
use nit.Blob.{one_past}
use nit.Compress.{CompressError, Zstd, decompress, unpack}
use nit.Taskspec.{PatchBlob}
use nit.Server.{ServerState, Deps, bad_request}
use nit.Server.Patches.{
  load_patch, patch_too_large, or_unknown_blob, or_undecodable, announces_more,
}
use nit.Server.Report.{PushRequest}
use nit.Server.Push.{Authorized}
use nit.Server.Authorize.{IsEnforced}

or_undecodable_ok :
    (r : Result CompressError GoString) (raw : GoString) → or_undecodable r ≡ ok raw → r ≡ ok raw
or_undecodable_ok r raw e = ground arith

-- Of a payload of which nothing is read, nothing is unpacked.
decompress_nothing :
    (z : Zstd) (encoding raw : GoString) (n : ℕ)
    → one_past n ≡ 0
    → decompress z [] encoding (pos n) ≡ ok raw
    → raw ≡ []
unfolding decompress unpack
decompress_nothing z encoding raw zero e h = ground arith
decompress_nothing z encoding raw (suc n) e h = ground arith

load_nothing :
    {B : Type 0} (deps : Deps B) (descriptor : PatchBlob) (blobs : B) (raw : GoString)
    → one_past deps.max_patch_bytes ≡ 0
    → load_patch deps descriptor blobs ≡ ok raw
    → raw ≡ []
unfolding load_patch
load_nothing deps descriptor blobs raw big e =
    >>=-ok_cases (refuse_if (is_empty descriptor.digest) bad_request) _ e λ _ _ e1.
      >>=-ok_cases (refuse_if (announces_more deps.max_patch_bytes descriptor.size) patch_too_large)
        _ e1
        λ _ _ e2.
          >>=-ok_cases (or_unknown_blob (deps.blobs.get descriptor.digest blobs)) _ e2
            λ content _ e3. >>=-ok_cases _ _ (rw big at e3) λ _ _ e4.
              decompress_nothing deps.zstd descriptor.encoding raw deps.max_patch_bytes big
                (or_undecodable_ok _ raw e4)

parse_nothing : ⦃gd : Gitdiff⦄ → parse [] ≡ err empty
unfolding parse parse_bounds split_sections scan_lines lines_of
parse_nothing = refl

-- A push whose patch was loaded and parsed has a server with a limit that does not wrap.
pub small-IsEnforced :
    ⦃ds : Doublestar⦄
    → ⦃gd : Gitdiff⦄
    → {B : Type 0} (deps : Deps B) (p : Principal) (req : PushRequest) (a : Authorized)
      (s : ServerState B)
    → IsEnforced deps p req a s
    → deps.max_patch_bytes + 1 < 2 ^ 63
small-IsEnforced deps p req a s enforced =
    elim (Bool-cases (ltb (deps.max_patch_bytes + 1) (2 ^ 63))) [
      | inl small ↦ ground arith
      | inr big ↦
          let nothing =
            load_nothing deps req.patch s.blobs enforced.raw (rw big refl) enforced.loaded in
          absurd (let h = sym (ap parse nothing ∙ parse_nothing) ∙ enforced.parsed in cc)
    ]
