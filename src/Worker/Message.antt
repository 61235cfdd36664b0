-- ===== src/Worker/Message.antt =====
-- internal/worker/message.go: the message of the commit that is published, and its trailers.
--
-- A regular expression is the automaton that reads it. Texts are bytes in UTF-8.
pub mod Honest
use mathlib.Core.List.{List, [], ◌∷◌, ◌++◌}
use nit.Base.{
  trim_space, ℕ, zero, suc, ◌+◌, Bool, true, false, not, ◌&&◌, ◌||◌, GoString, text, is_empty, all,
  map, length, ltb, leb, nat_eq, if◌then◌else◌, split, digits, ℤ, pos, negsuc,
}
use nit.Taskspec.{PushSpec}

abbrev pub is_letter : ℕ → Bool
is_letter c = (leb 65 c && leb c 90) || (leb 97 c && leb c 122)

-- [A-Za-z0-9-].
abbrev pub is_key_byte : ℕ → Bool
is_key_byte c = is_letter c || ((leb 48 c && leb c 57) || nat_eq c 45)

abbrev pub is_blank : ℕ → Bool
is_blank c = nat_eq c 32 || nat_eq c 9

-- Where the automaton of `counterfeitTrailer` stands. Without regard to case, the letters of a key
-- are also U+017F and U+212A, of two and three bytes.
pub data Scan : Type 0 where
  leading saw_n saw_i saw_t in_key long_s kelvin kelvin_end after_key : Scan

pub data Verdict : Type 0 where
  continues : Scan → Verdict
  accepts : Verdict
  rejects : Verdict

abbrev pub expect : Bool → Scan → Verdict
expect true next = continues next
expect false next = rejects

abbrev pub in_gap : ℕ → Verdict
in_gap c = if nat_eq c 58 then accepts else expect (is_blank c) after_key

abbrev pub advance : Scan → ℕ → Verdict
advance leading c =
    if is_blank c then continues leading else expect (nat_eq c 78 || nat_eq c 110) saw_n
advance saw_n c = expect (nat_eq c 73 || nat_eq c 105) saw_i
advance saw_i c = expect (nat_eq c 84 || nat_eq c 116) saw_t
advance saw_t c = expect (nat_eq c 45) in_key
advance in_key c =
    if is_key_byte c
    then continues in_key
    else if nat_eq c 197
    then continues long_s
    else if nat_eq c 226
    then continues kelvin
    else in_gap c
advance long_s c = expect (nat_eq c 191) in_key
advance kelvin c = expect (nat_eq c 132) kelvin_end
advance kelvin_end c = expect (nat_eq c 170) in_key
advance after_key c = in_gap c

unfoldable pub scan : Scan → GoString → Bool
scan at [] = false
scan at (c ∷ s) = elim (advance at c) [
  | continues next ↦ scan next s
  | accepts ↦ true
  | rejects ↦ false
]

-- A line that claims to be one of nit's trailers starts here.
abbrev pub is_counterfeit : GoString → Bool
is_counterfeit s = scan leading s

-- `counterfeitTrailer.ReplaceAllString(message, "")`: whether the rest of a line is being removed,
-- and whether a line starts here.
unfoldable pub strip : Bool → Bool → GoString → GoString
strip removing starts [] = []
strip true starts (c ∷ s) =
    let next = strip false true s in
    let more = strip true false s in if nat_eq c 10 then c ∷ next else more
strip false starts (c ∷ s) =
    let removed = strip true false s in
    let kept = strip false (nat_eq c 10) s in
    if starts && is_counterfeit (c ∷ s) then removed else c ∷ kept

-- `\n{3,}` becomes two line feeds; `n` of them were just written.
unfoldable pub collapse : ℕ → GoString → GoString
collapse n [] = []
collapse n (c ∷ s) =
    let counted = collapse (n + 1) s in
    let dropped = collapse n s in
    let other = collapse 0 s in
    if nat_eq c 10 then (if ltb n 2 then c ∷ counted else dropped) else c ∷ other

unfoldable pub sanitize_message : GoString → GoString → GoString
sanitize_message message branch =
    let cleaned = trim_space (collapse 0 (trim_space (strip false true message))) in
    if is_empty cleaned then text "nit: push to " ++ branch else cleaned

abbrev pub flattened : ℕ → ℕ
flattened c = if nat_eq c 13 || nat_eq c 10 then 32 else c

unfoldable pub sanitize_trailer_value : GoString → GoString
sanitize_trailer_value value = trim_space (map flattened value)

abbrev pub trailer_line : GoString → GoString → GoString
trailer_line key value = key ++ (58 ∷ 32 ∷ value ++ 10 ∷ [])

-- A trailer, unless its value is empty.
unfoldable pub trailer : GoString → GoString → GoString
trailer key value =
    let clean = sanitize_trailer_value value in
    if is_empty clean then [] else trailer_line key clean

abbrev pub dropped_trailer : ℤ → GoString
dropped_trailer (pos zero) = []
dropped_trailer (pos (suc n)) = trailer_line (text "Nit-Dropped") (digits (suc (suc n)) (suc n))
dropped_trailer (negsuc n) = []

unfoldable pub trailer_block : PushSpec → GoString → GoString
trailer_block spec task_id =
    trailer (text "Nit-User") spec.policy_user_id
    ++ trailer (text "Nit-Request") spec.request_id
    ++ trailer (text "Nit-Task") task_id
    ++ trailer (text "Nit-Policy-Version") spec.policy_version
    ++ trailer (text "Nit-Base-Commit") spec.base_commit
    ++ trailer (text "Nit-Workspace") spec.workspace_id
    ++ dropped_trailer spec.dropped_files

-- strings.Split at an empty line; `pending` is a line feed that is not yet known to be one of two.
unfoldable pub paragraphs : GoString → Bool → GoString → List GoString
paragraphs cur true [] = (cur ++ 10 ∷ []) ∷ []
paragraphs cur false [] = cur ∷ []
paragraphs cur true (c ∷ s) =
    let closed = paragraphs [] false s in
    let longer = paragraphs (cur ++ 10 ∷ c ∷ []) false s in
    if nat_eq c 10 then cur ∷ closed else longer
paragraphs cur false (c ∷ s) =
    let waits = paragraphs cur true s in
    let longer = paragraphs (cur ++ c ∷ []) false s in if nat_eq c 10 then waits else longer

-- `trailerLine` after its first letter.
unfoldable pub key_and_space : GoString → Bool
key_and_space [] = false
key_and_space (c ∷ []) = false
key_and_space (c ∷ d ∷ s) =
    let more = key_and_space (d ∷ s) in if is_key_byte c then more else nat_eq c 58 && is_blank d

abbrev pub is_trailer_line : GoString → Bool
is_trailer_line [] = false
is_trailer_line (c ∷ s) = is_letter c && key_and_space s

abbrev pub last_of : GoString → List GoString → GoString
last_of p [] = p
last_of p (q ∷ ps) = last_of q ps

abbrev pub is_trailer_block : List GoString → Bool
is_trailer_block [] = false
is_trailer_block (p ∷ []) = false
is_trailer_block (p ∷ q ∷ ps) = all is_trailer_line (split (last_of q ps) 10)

unfoldable pub ends_with_trailer_block : GoString → Bool
ends_with_trailer_block message = is_trailer_block (paragraphs [] false (trim_space message))

unfoldable pub append_trailers : GoString → GoString → GoString
append_trailers message block =
    if is_empty block
    then message
    else if ends_with_trailer_block message
    then message ++ (10 ∷ block)
    else message ++ (10 ∷ 10 ∷ block)

unfoldable pub commit_message : PushSpec → GoString → GoString
commit_message spec task_id =
    append_trailers (sanitize_message spec.message spec.branch) (trailer_block spec task_id)
