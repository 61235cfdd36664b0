-- ===== src/Base/Space.antt =====
-- strings.TrimSpace, on bytes in UTF-8.
use Prim.Native.Nat.{ℕ, zero, suc}
use mathlib.Core.Bool.{Bool, true, false, ◌&&◌, ◌||◌}
use mathlib.Core.List.{[], ◌∷◌}
use nit.Base.Tests.{leb, nat_eq, if◌then◌else◌}
use nit.Base.Lists.{is_empty, length, drop}
use nit.Base.Bytes.{GoString}

-- The bytes of the space that starts here, 0 if none does: tab to carriage return, and space;
-- U+0085 and U+00A0; U+1680; U+2000 to U+200A, U+2028, U+2029, U+202F and U+205F; U+3000.
unfoldable pub space_length : GoString → ℕ
space_length [] = 0
space_length (a ∷ []) = if (leb 9 a && leb a 13) || nat_eq a 32 then 1 else 0
space_length (a ∷ b ∷ []) =
    if (leb 9 a && leb a 13) || nat_eq a 32
    then 1
    else if nat_eq a 194 && (nat_eq b 133 || nat_eq b 160)
    then 2
    else 0
space_length (a ∷ b ∷ c ∷ s) =
    if (leb 9 a && leb a 13) || nat_eq a 32
    then 1
    else if nat_eq a 194 && (nat_eq b 133 || nat_eq b 160)
    then 2
    else if (nat_eq a 225 && (nat_eq b 154 && nat_eq c 128))
        || ((nat_eq a 226
              && ((nat_eq b 128
                    && ((leb 128 c && leb c 138)
                        || (nat_eq c 168 || (nat_eq c 169 || nat_eq c 175))))
                  || (nat_eq b 129 && nat_eq c 159)))
            || (nat_eq a 227 && (nat_eq b 128 && nat_eq c 128)))
    then 3
    else 0

-- Each round removes a byte at least, so as many rounds as bytes are enough.
unfoldable pub trim_left_from : ℕ → GoString → GoString
trim_left_from zero s = s
trim_left_from (suc rounds) s =
    let rest = trim_left_from rounds (drop (space_length s) s) in
    if nat_eq (space_length s) 0 then s else rest

unfoldable pub all_space : ℕ → GoString → Bool
all_space zero s = is_empty s
all_space (suc rounds) s =
    let rest = all_space rounds (drop (space_length s) s) in
    if is_empty s then true else if nat_eq (space_length s) 0 then false else rest

unfoldable pub trim_right : GoString → GoString
trim_right [] = []
trim_right (c ∷ s) =
    let rest = trim_right s in if all_space (suc (length s)) (c ∷ s) then [] else c ∷ rest

unfoldable pub trim_space : GoString → GoString
trim_space s = trim_right (trim_left_from (length s) s)
