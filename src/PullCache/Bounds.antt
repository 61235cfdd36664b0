-- ===== src/PullCache/Bounds.antt =====
-- The cache stays within its limit, has no key twice, and evicts what was used least recently.
use nit.Base.{
  ℕ, zero, suc, ◌+◌, ◌≤◌, ◌≡◌, ◌≢◌, refl, List, [], ◌∷◌, All, GoString, length, take, arith, none,
  some, inl, inr, Option-cases, ℤ, ◌∙◌,
}
use nit.PullCache.{
  Held, ProjectionCache, held_under, drop_key, look, put_projection, Step, looks, drops, puts,
  cache_step, run_steps, life, len, new_cache,
}

abbrev pub Lacks : GoString → List Held → Type 0
Lacks k hs = All (λ h. h.key ≢ k) hs

abbrev pub NoRepeats : List Held → Type 0
NoRepeats [] = Unit
NoRepeats (h ∷ hs) = Lacks h.key hs × NoRepeats hs

abbrev pub IsBounded : ProjectionCache → Type 0
IsBounded c = (length c.order ≤ c.max) × NoRepeats c.order

pub drop_key-Lacks : (k : GoString) (hs : List Held) → Lacks k (drop_key k hs)
unfolding drop_key
drop_key-Lacks k [] = tt
drop_key-Lacks k (h ∷ hs) = ground (arith, drop_key-Lacks k hs)

All-drop_key :
    (P : Held → Type 0) (k : GoString) (hs : List Held) → All P hs → All P (drop_key k hs)
unfolding drop_key
All-drop_key P k [] a = tt
All-drop_key P k (h ∷ hs) a = ground (arith, All-drop_key P k hs a.1)

All-take_held : (P : Held → Type 0) (n : ℕ) (hs : List Held) → All P hs → All P (take n hs)
All-take_held P zero hs a = tt
All-take_held P (suc n) [] a = tt
All-take_held P (suc n) (h ∷ hs) a = (a.0, All-take_held P n hs a.1)

NoRepeats-drop_key : (k : GoString) (hs : List Held) → NoRepeats hs → NoRepeats (drop_key k hs)
unfolding drop_key
NoRepeats-drop_key k [] d = tt
NoRepeats-drop_key k (h ∷ hs) d =
    ground (arith, NoRepeats-drop_key k hs d.1, All-drop_key (λ j. j.key ≢ h.key) k hs d.0)

NoRepeats-take : (n : ℕ) (hs : List Held) → NoRepeats hs → NoRepeats (take n hs)
NoRepeats-take zero hs d = tt
NoRepeats-take (suc n) [] d = tt
NoRepeats-take (suc n) (h ∷ hs) d =
    (All-take_held (λ j. j.key ≢ h.key) n hs d.0, NoRepeats-take n hs d.1)

length-drop_key : (k : GoString) (hs : List Held) → length (drop_key k hs) ≤ length hs
unfolding drop_key
length-drop_key k [] = omega arith
length-drop_key k (h ∷ hs) = ground (arith, length-drop_key k hs)

length-drop_key_held :
    (k : GoString) (hs : List Held)
    → held_under k hs ≢ none
    → suc (length (drop_key k hs)) ≤ length hs
unfolding drop_key held_under
length-drop_key_held k [] e = absurd (e refl)
length-drop_key_held k (h ∷ hs) e = ground (arith, length-drop_key k hs, length-drop_key_held k hs)

length-take_le : (n : ℕ) (hs : List Held) → length (take n hs) ≤ n
length-take_le zero hs = omega arith
length-take_le (suc n) [] = omega arith
length-take_le (suc n) (h ∷ hs) = omega (arith, length-take_le n hs)

Lacks-of_absent : (k : GoString) (hs : List Held) → held_under k hs ≡ none → Lacks k hs
unfolding held_under
Lacks-of_absent k [] e = tt
Lacks-of_absent k (h ∷ hs) e = ground (arith, Lacks-of_absent k hs)

pub key-held_under :
    (k : GoString) (hs : List Held) (h : Held) → held_under k hs ≡ some h → h.key ≡ k
unfolding held_under
key-held_under k [] h e = absurd (ground arith)
key-held_under k (j ∷ hs) h e = ground (arith, key-held_under k hs h)

pub cache_step-IsBounded :
    (s : Step) (c : ProjectionCache) → IsBounded c → IsBounded (cache_step s c)
unfolding cache_step look put_projection
cache_step-IsBounded (looks k now) c b = elim (Option-cases (held_under k c.order)) [
  | inl e ↦ ground arith
  | inr (h, e) ↦ ground (
    arith,
    key-held_under k c.order h e,
    drop_key-Lacks k c.order,
    NoRepeats-drop_key k c.order b.1,
    length-drop_key_held k c.order,
    length-drop_key k c.order,
  )
]
cache_step-IsBounded (drops k) c b =
    ground (arith, NoRepeats-drop_key k c.order b.1, length-drop_key k c.order)
cache_step-IsBounded (puts k entry now) c b =
    let h : Held = record { key = k; entry = entry; expires = now + life c.ttl } in
    elim (Option-cases (held_under k c.order)) [
      | inl e ↦ ground (
        arith,
        Lacks-of_absent k c.order e,
        length-take_le c.max (h ∷ c.order),
        NoRepeats-take c.max (h ∷ c.order),
      )
      | inr (old, e) ↦ ground (
        arith,
        drop_key-Lacks k c.order,
        NoRepeats-drop_key k c.order b.1,
        length-drop_key_held k c.order,
      )
    ]

max-cache_step : (s : Step) (c : ProjectionCache) → (cache_step s c).max ≡ c.max
unfolding cache_step look put_projection
max-cache_step (looks k now) c = ground arith
max-cache_step (drops k) c = ground arith
max-cache_step (puts k entry now) c = ground arith

run_steps-IsBounded_from :
    (steps : List Step) (c : ProjectionCache)
    → IsBounded c
    → IsBounded (run_steps steps c) × ((run_steps steps c).max ≡ c.max)
unfolding run_steps
run_steps-IsBounded_from [] c b = (b, refl)
run_steps-IsBounded_from (s ∷ steps) c b =
    let (bounded, same) =
      run_steps-IsBounded_from steps (cache_step s c) (cache_step-IsBounded s c b) in
    (bounded, same ∙ max-cache_step s c)

-- Whatever callers do with a new cache, and in whatever order their steps come: it holds 1024
-- entries at most, and no key twice.
pub run_steps-IsBounded :
    (ttl : ℤ) (steps : List Step)
    → let c = run_steps steps (new_cache ttl) in (len c ≤ 1024) × NoRepeats c.order
unfolding new_cache len
run_steps-IsBounded ttl steps =
    let ((bounded, distinct), same) =
      run_steps-IsBounded_from steps (new_cache ttl) ((omega arith, tt)) in
    (ground arith, distinct)
