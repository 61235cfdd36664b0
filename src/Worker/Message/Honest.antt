-- ===== src/Worker/Message/Honest.antt =====
-- internal/worker/message.go, `sanitizeMessage`: no line of the author's poses as a trailer of nit's.
use mathlib.Core.List.{[], ◌∷◌}
use mathlib.Core.Path.{◌≡◌, refl, sym, ◌∙◌}
use nit.Base.{
  space_length, trim_left_from, all_space, trim_right, trim_space, ◌≢◌, ℕ, zero, suc, ◌+◌, Bool,
  true, false, ◌&&◌, ◌||◌, GoString, is_empty, All, length, drop, nat_eq, Bool-cases, inl, inr,
  arith,
}
use nit.Worker.Message.{
  Scan, leading, saw_n, saw_i, saw_t, in_key, long_s, kelvin, kelvin_end, after_key, advance,
  continues, accepts, rejects, scan, is_counterfeit, strip, collapse, sanitize_message,
}

-- Some line claims to be nit's, of those that start later, or also here.
unfoldable pub is_forged : Bool → GoString → Bool
is_forged starts [] = false
is_forged starts (c ∷ s) = (starts && is_counterfeit (c ∷ s)) || is_forged (nat_eq c 10) s

-- The automaton does not read past the end of a line.
scan_feed : (at : Scan) (s : GoString) → scan at (10 ∷ s) ≡ false
unfolding scan
scan_feed leading s = refl
scan_feed saw_n s = refl
scan_feed saw_i s = refl
scan_feed saw_t s = refl
scan_feed in_key s = refl
scan_feed long_s s = refl
scan_feed kelvin s = refl
scan_feed kelvin_end s = refl
scan_feed after_key s = refl

scan_line : (at : Scan) (c : ℕ) (s : GoString) → nat_eq c 10 ≡ true → scan at (c ∷ s) ≡ false
scan_line at c s e = let same : c ≡ 10 = ground arith in rw same (scan_feed at s)

-- Texts that it cannot tell apart stay so after one more byte.
scan-cons :
    (at : Scan) (c : ℕ) (s t : GoString)
    → ((next : Scan) → scan next s ≡ scan next t)
    → scan at (c ∷ s) ≡ scan at (c ∷ t)
unfolding scan
scan-cons at c s t h =
    elim (advance at c)
      as (λ v.
        ◌≡◌ {A = Bool} (elim v [ continues next ↦ scan next s | accepts ↦ true | rejects ↦ false ])
          (elim v [ continues next ↦ scan next t | accepts ↦ true | rejects ↦ false ])) [
            | continues next ↦ h next
            | accepts ↦ refl
            | rejects ↦ refl
          ]

-- Copies that keep a line keep what the automaton says of it.
scan-strip : (at : Scan) (s : GoString) → scan at (strip false false s) ≡ scan at s
unfolding strip
scan-strip at [] = refl
scan-strip at (c ∷ s) = elim (Bool-cases (nat_eq c 10)) [
  | inl e ↦ scan_line at c (strip false (nat_eq c 10) s) e ∙ sym (scan_line at c s e)
  | inr e ↦ rw e (scan-cons at c (strip false false s) s (λ next. scan-strip next s))
]

scan-collapse : (at : Scan) (s : GoString) → scan at (collapse 0 s) ≡ scan at s
unfolding collapse
scan-collapse at [] = refl
scan-collapse at (c ∷ s) = elim (Bool-cases (nat_eq c 10)) [
  | inl e ↦ rw e (scan_line at c (collapse 1 s) e ∙ sym (scan_line at c s e))
  | inr e ↦ rw e (scan-cons at c (collapse 0 s) s (λ next. scan-collapse next s))
]

is_forged_less :
    (starts : Bool) (s : GoString) → is_forged true s ≡ false → is_forged starts s ≡ false
unfolding is_forged
is_forged_less starts [] h = refl
is_forged_less starts (c ∷ s) h = ground arith

is_forged-strip :
    (starts : Bool) (s : GoString)
    → (is_forged starts (strip false starts s) ≡ false)
      × (is_forged true (strip true starts s) ≡ false)
unfolding is_forged strip
is_forged-strip starts [] = (refl, refl)
is_forged-strip starts (c ∷ s) =
    let (kept, _) = is_forged-strip (nat_eq c 10) s in
    let (next, _) = is_forged-strip true s in
    let (_, removed) = is_forged-strip false s in
    let copied : scan leading (c ∷ strip false (nat_eq c 10) s) ≡ scan leading (c ∷ s) =
      scan-strip leading (c ∷ s) in
    (
      elim (Bool-cases (starts && is_counterfeit (c ∷ s))) [
        | inl m ↦ rw m (is_forged_less starts (strip true false s) removed)
        | inr m ↦ rw (m, copied, m) kept
      ],
      elim (Bool-cases (nat_eq c 10)) [
        | inl e ↦ rw (e, scan_line leading c (strip false true s) e, e) next
        | inr e ↦ rw e removed
      ],
    )

is_forged_tail :
    (starts : Bool) (c : ℕ) (s : GoString)
    → is_forged starts (c ∷ s) ≡ false
    → is_forged false s ≡ false
unfolding is_forged
is_forged_tail starts c s h =
    let less = is_forged_less false s in
    elim (Bool-cases (nat_eq c 10)) [ inl e ↦ ground arith | inr e ↦ ground arith ]

is_forged-drop :
    (n : ℕ) (s : GoString) → is_forged false s ≡ false → is_forged false (drop n s) ≡ false
is_forged-drop zero s h = h
is_forged-drop (suc n) [] h = h
is_forged-drop (suc n) (c ∷ s) h = is_forged-drop n s (is_forged_tail false c s h)

is_forged-trim_left_from :
    (n : ℕ) (s : GoString)
    → is_forged false s ≡ false
    → is_forged false (trim_left_from n s) ≡ false
unfolding trim_left_from
is_forged-trim_left_from zero s h = h
is_forged-trim_left_from (suc n) s h =
    let rest =
      is_forged-trim_left_from n (drop (space_length s) s) (is_forged-drop (space_length s) s h) in
    elim (Bool-cases (nat_eq (space_length s) 0)) [ inl e ↦ rw e h | inr e ↦ rw e rest ]

is_forged-collapse :
    (starts : Bool) (n : ℕ) (s : GoString)
    → is_forged starts s ≡ false
    → is_forged starts (collapse n s) ≡ false
unfolding is_forged collapse
is_forged-collapse starts n [] h = refl
is_forged-collapse starts n (c ∷ s) h =
    let counted = is_forged-collapse true (n + 1) s in
    let dropped = is_forged-collapse true n s in
    let other = is_forged-collapse false 0 s in
    let less = is_forged_less starts (collapse n s) in
    let feed = scan_line leading c (collapse (n + 1) s) in
    let copied = scan-cons leading c (collapse 0 s) s (λ at. scan-collapse at s) in ground arith

scan-cons_false :
    (at : Scan) (c : ℕ) (s t : GoString)
    → ((next : Scan) → scan next s ≡ false → scan next t ≡ false)
    → scan at (c ∷ s) ≡ false
    → scan at (c ∷ t) ≡ false
unfolding scan
scan-cons_false at c s t h =
    elim (advance at c)
      as (λ v.
        ◌≡◌ {A = Bool} (elim v [ continues next ↦ scan next s | accepts ↦ true | rejects ↦ false ])
          false
        → ◌≡◌ {A = Bool}
            (elim v [ continues next ↦ scan next t | accepts ↦ true | rejects ↦ false ]) false) [
              | continues next ↦ h next
              | accepts ↦ λ e. e
              | rejects ↦ λ e. e
            ]

-- A text cut short claims no more.
scan-trim_right : (at : Scan) (s : GoString) → scan at s ≡ false → scan at (trim_right s) ≡ false
unfolding trim_right scan
scan-trim_right at [] h = refl
scan-trim_right at (c ∷ s) h = elim (Bool-cases (all_space (suc (length s)) (c ∷ s))) [
  | inl e ↦ rw e refl
  | inr e ↦ rw e (scan-cons_false at c s (trim_right s) (λ next. scan-trim_right next s) h)
]

is_forged-trim_right :
    (starts : Bool) (s : GoString)
    → is_forged starts s ≡ false
    → is_forged starts (trim_right s) ≡ false
unfolding is_forged trim_right
is_forged-trim_right starts [] h = refl
is_forged-trim_right starts (c ∷ s) h =
    let rest = is_forged-trim_right (nat_eq c 10) s in
    let cut = scan-cons_false leading c s (trim_right s) (λ next. scan-trim_right next s) in
    elim (Bool-cases (all_space (suc (length s)) (c ∷ s))) [
      | inl e ↦ rw e refl
      | inr e ↦ rw e (ground arith)
    ]

is_forged-trim_space :
    (s : GoString) → is_forged false s ≡ false → is_forged false (trim_space s) ≡ false
unfolding trim_space
is_forged-trim_space s h =
    is_forged-trim_right false (trim_left_from (length s) s)
      (is_forged-trim_left_from (length s) s h)

is_forged_one_line : (s : GoString) → All (λ c. c ≢ 10) s → is_forged false s ≡ false
unfolding is_forged
is_forged_one_line [] h = refl
is_forged_one_line (c ∷ s) (ne, h) = ground (arith, is_forged_one_line s h)

-- Whatever the author writes, and for a branch without a line feed in its name, no line of the
-- message claims to be one of nit's trailers, except perhaps the first.
pub is_forged-sanitize_message :
    (message branch : GoString)
    → All (λ c. c ≢ 10) branch
    → is_forged false (sanitize_message message branch) ≡ false
unfolding sanitize_message is_forged
is_forged-sanitize_message message branch plain =
    let stripped =
      is_forged_less false (strip false true message) (is_forged-strip true message).0 in
    let trimmed = is_forged-trim_space (strip false true message) stripped in
    let collapsed = is_forged-collapse false 0 (trim_space (strip false true message)) trimmed in
    let cleaned =
      is_forged-trim_space (collapse 0 (trim_space (strip false true message))) collapsed in
    elim (Bool-cases (is_empty (trim_space (collapse 0 (trim_space (strip false true message)))))) [
      | inl e ↦ rw e (is_forged_one_line branch plain)
      | inr e ↦ rw e cleaned
    ]
