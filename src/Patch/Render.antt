-- ===== src/Patch/Render.antt =====
-- pkg/patch/parse.go, `Render`: the patch with the sections that a test keeps, byte for byte. The
-- nil slice, returned when nothing is kept, is the empty list.
use mathlib.Core.List.{List, [], ◌∷◌, ◌++◌}
use nit.Base.{Bool, GoString, keep, is_empty, if◌then◌else◌}
use nit.Patch.Change.{Change}
use nit.Patch.Parse.{ChangeSet}

abbrev pub concat_raw : List Change → GoString
concat_raw [] = []
concat_raw (c ∷ cs) = c.raw ++ concat_raw cs

unfoldable pub render : ChangeSet → (Change → Bool) → GoString
render s keeps =
    let kept = keep keeps s.changes in if is_empty kept then [] else s.preamble ++ concat_raw kept
