-- ===== src/PullCache/Hits.antt =====
-- What a lookup may answer: what was stored last under the key, not yet expired, and backed by its
-- blob.
use nit.Base.{
  ℕ, zero, suc, ◌+◌, ◌<◌, ◌≡◌, refl, ap, ◌⊎◌, inl, inr, List, [], ◌∷◌, GoString, ◌==◌, take, arith,
  none, some, Option, Option-cases, ℤ, Result, ok, true, false, if◌then◌else◌, ◌∙◌, Bool-cases, sym,
  Result-cases, frames-injective,
}
use nit.Policy.Profile.Shared.{NoCollision}
use nit.Blob.{BlobError, Descriptor}
use nit.PullCache.Bounds.{key-held_under}
use nit.Taskspec.{PatchBlob}
use nit.PullCache.{
  Entry, is_off, Held, ProjectionCache, held_under, drop_key, look, check_blob, get_projection,
  put_projection, Step, looks, drops, puts, cache_step, run_steps, life, new_cache, ProjectionKey,
  key_bytes, hash_key,
}

-- The entry and the instant of the last `puts` under a key, `acc` standing for those before.
pub last_put : GoString → List Step → Option (Entry × ℕ) → Option (Entry × ℕ)
last_put k [] acc = acc
last_put k (puts j entry now ∷ steps) acc =
    if j == k then last_put k steps (some (entry, now)) else last_put k steps acc
last_put k (_ ∷ steps) acc = last_put k steps acc

held_under-drop_key :
    (k j : GoString) (hs : List Held)
    → held_under k (drop_key j hs) ≡ (if j == k then none else held_under k hs)
unfolding held_under drop_key
held_under-drop_key k j [] = ground arith
held_under-drop_key k j (h ∷ hs) = ground (arith, held_under-drop_key k j hs)

held_under-take :
    (k : GoString) (n : ℕ) (hs : List Held) (h : Held)
    → held_under k (take n hs) ≡ some h
    → held_under k hs ≡ some h
unfolding held_under
held_under-take k zero hs h e = absurd (ground arith)
held_under-take k (suc n) [] h e = absurd (ground arith)
held_under-take k (suc n) (j ∷ hs) h e = ground (arith, held_under-take k n hs h)

held_under-look :
    (k j : GoString) (now : ℕ) (c : ProjectionCache) (h : Held)
    → held_under k (look j now c).0.order ≡ some h
    → held_under k c.order ≡ some h
unfolding look held_under
held_under-look k j now c h e = elim (Option-cases (held_under j c.order)) [
  | inl absent ↦ ground arith
  | inr (old, found) ↦
      ground (arith, held_under-drop_key k j c.order, key-held_under j c.order old found)
]

held_under-put_projection :
    (k j : GoString) (entry : Entry) (now : ℕ) (c : ProjectionCache) (h : Held)
    → held_under k (put_projection j entry now c).order ≡ some h
    → (if j == k
        then (is_off c.ttl ≡ true)
          ⊎ (h ≡ record { key = j; entry = entry; expires = now + life c.ttl })
        else held_under k c.order ≡ some h)
unfolding put_projection held_under
held_under-put_projection k j entry now c h e =
    let new : Held = record { key = j; entry = entry; expires = now + life c.ttl } in
    ground (arith, held_under-drop_key k j c.order, held_under-take k c.max (new ∷ c.order) h)

ttl-cache_step : (s : Step) (c : ProjectionCache) → (cache_step s c).ttl ≡ c.ttl
unfolding cache_step look put_projection
ttl-cache_step (looks k now) c = ground arith
ttl-cache_step (drops k) c = ground arith
ttl-cache_step (puts k entry now) c = ground arith

ttl-run_steps : (steps : List Step) (c : ProjectionCache) → (run_steps steps c).ttl ≡ c.ttl
unfolding run_steps
ttl-run_steps [] c = refl
ttl-run_steps (s ∷ steps) c = ttl-run_steps steps (cache_step s c) ∙ ttl-cache_step s c

-- What is held under a key is what was stored last.
abbrev Tracks : ℤ → GoString → Option (Entry × ℕ) → ProjectionCache → Type 0
Tracks ttl k acc c =
    (c.ttl ≡ ttl)
    × ((h : Held)
        → held_under k c.order ≡ some h
        → (t : ℕ) × (acc ≡ some (h.entry, t)) × (h.expires ≡ t + life ttl))

run_steps-Tracks :
    (ttl : ℤ) (k : GoString) (steps : List Step) (acc : Option (Entry × ℕ)) (c : ProjectionCache)
    → is_off ttl ≡ false
    → Tracks ttl k acc c
    → Tracks ttl k (last_put k steps acc) (run_steps steps c)
unfolding run_steps last_put cache_step
run_steps-Tracks ttl k [] acc c on t = t
run_steps-Tracks ttl k (looks j now ∷ steps) acc c on (same, tracks) =
    run_steps-Tracks ttl k steps acc (look j now c).0 on
      (ttl-cache_step (looks j now) c ∙ same, λ h e. tracks h (held_under-look k j now c h e))
run_steps-Tracks ttl k (drops j ∷ steps) acc c on (same, tracks) =
    run_steps-Tracks ttl k steps acc (record c { order = drop_key j c.order }) on
      (same, λ h e. tracks h (ground (arith, held_under-drop_key k j c.order)))
run_steps-Tracks ttl k (puts j entry now ∷ steps) acc c on (same, tracks) =
    let kept = ttl-cache_step (puts j entry now) c ∙ same in
    let from = held_under-put_projection k j entry now c in
    elim (Bool-cases (j == k)) [
      | inl hit ↦ rw hit (
          run_steps-Tracks ttl k steps (some (entry, now)) (put_projection j entry now c) on (
            kept,
            λ h e.
                let was = from h e in
                let off = ap is_off same in
                let lives = ap life same in (now, ground arith, ground arith),
          ))
      | inr miss ↦ rw miss (
          run_steps-Tracks ttl k steps acc (put_projection j entry now c) on
            (kept, λ h e. let was = from h e in tracks h (ground arith)))
    ]

-- The blob of an entry, if it has one, is found.
abbrev IsBacked : (GoString → Result BlobError Descriptor) → Entry → Type 0
IsBacked stat e = (b : PatchBlob) → e.patch ≡ some b → (d : Descriptor) × (stat b.digest ≡ ok d)

look_hit :
    (k : GoString) (now : ℕ) (c : ProjectionCache) (found : Entry)
    → (look k now c).1 ≡ some found
    → (h : Held) × (held_under k c.order ≡ some h)
      × (h.entry ≡ found)
      × (now < h.expires)
      × (is_off c.ttl ≡ false)
unfolding look
look_hit k now c found e = elim (Option-cases (held_under k c.order)) [
  | inl absent ↦ absurd (ground arith)
  | inr (h, held) ↦ (h, held, ground arith, ground arith, ground arith)
]

finish_hit :
    (stat : GoString → Result BlobError Descriptor) (k : GoString) (o : Option Entry)
    (c : ProjectionCache) (found : Entry)
    → (check_blob stat k o c).1 ≡ some found
    → (o ≡ some found) × IsBacked stat found
unfolding check_blob
finish_hit stat k none c found e = absurd (ground arith)
finish_hit stat k (some entry) c found e = elim (Option-cases entry.patch) [
  | inl bare ↦ (ground arith, λ b p. absurd (ground arith))
  | inr (blob, p) ↦ elim (Result-cases (stat blob.digest)) [
    | inl (x, gone) ↦ absurd (ground arith)
    | inr (d, there) ↦ (ground arith, λ b q. (d, ground arith))
  ]
]

-- Whatever was done with a new cache before, and in whatever order the steps came: what `get_projection` finds
-- under a key is the entry that was stored last under that key; its life has not passed since; and
-- the blob of its patch, if it has one, is found in the blob store.
pub get_projection-IsLastPut :
    (stat : GoString → Result BlobError Descriptor) (ttl : ℤ) (steps : List Step) (k : GoString)
    (now : ℕ) (found : Entry)
    → (get_projection stat k now (run_steps steps (new_cache ttl))).1 ≡ some found
    → (t : ℕ) × (last_put k steps none ≡ some (found, t))
      × (now < t + life ttl)
      × IsBacked stat found
unfolding get_projection new_cache held_under
get_projection-IsLastPut stat ttl steps k now found e =
    let c = run_steps steps (new_cache ttl) in
    let (seen, backed) = finish_hit stat k (look k now c).1 (look k now c).0 found e in
    let (h, held, same, fresh, on) = look_hit k now c found seen in
    let keeps = ttl-run_steps steps (new_cache ttl) in
    let (_, tracks) =
      run_steps-Tracks ttl k steps none (new_cache ttl) (ap is_off (sym keeps) ∙ on)
        (refl, λ j e'. absurd (ground arith)) in
    let (t, last, due) = tracks h held in
    (t, last ∙ ap (λ x. some (x, t)) same, omega arith, backed)

-- Two keys of projections have one hash only if they are equal in every field, provided that what is
-- written for them is no collision of SHA-256.
pub hash_key-injective :
    (sha256_hex : GoString → GoString) (k j : ProjectionKey)
    → NoCollision sha256_hex (key_bytes k) (key_bytes j)
    → hash_key sha256_hex k ≡ hash_key sha256_hex j
    → k ≡ j
unfolding hash_key key_bytes
hash_key-injective sha256_hex k j no_collision e =
    let parts =
      frames-injective (k.repository ∷ k.from ∷ k.to ∷ k.profile ∷ [])
        (j.repository ∷ j.from ∷ j.to ∷ j.profile ∷ []) (no_collision e) in
    ground arith
