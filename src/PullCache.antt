-- ===== src/PullCache.antt =====
-- pkg/pullcache/pullcache.go and internal/pullcache/cache.go: the cache of filtered projections.
--
-- A cache keeps the elements of its list, most recently used first. The map from a hashed key to its
-- element is not a part of its own: the code changes the map and the list together, and the element
-- that the map has is the one of the list with that key. An instant is its number of nanoseconds.
-- What `c.mu` guards is one step; the check of the blob, between two steps, is `check_blob`.
pub mod Bounds
pub mod Hits
use nit.Base.{
  ℕ, ◌+◌, Bool, true, false, not, ◌||◌, Option, none, some, List, [], ◌∷◌, GoString, str_discrete,
  ◌==◌, ltb, length, take, if◌then◌else◌, frames, Result, ok, err, ℤ, pos, negsuc, is_some,
}
use nit.Blob.{BlobError, Descriptor}
use nit.Taskspec.{PatchBlob}

pub record Entry : Type 0 where
  pub patch : Option PatchBlob
  pub files_total : ℕ
  pub files_delivered : ℕ
  pub files_withheld : ℕ

pub record ProjectionKey : Type 0 where
  pub repository : GoString
  pub from : GoString
  pub to : GoString
  pub profile : GoString

-- What `Hash` writes, and its result, for SHA-256 in hexadecimal.
unfoldable pub key_bytes : ProjectionKey → GoString
unfolding frames
key_bytes k = frames (k.repository ∷ k.from ∷ k.to ∷ k.profile ∷ [])

unfoldable pub hash_key : (GoString → GoString) → ProjectionKey → GoString
unfolding key_bytes
hash_key sha256_hex k = sha256_hex (key_bytes k)

-- `record`.
pub record Held : Type 0 where
  pub key : GoString
  pub entry : Entry
  pub expires : ℕ

pub record ProjectionCache : Type 0 where
  pub ttl : ℤ
  pub max : ℕ
  pub order : List Held

abbrev pub default_entries : ℕ
default_entries = 1024

unfoldable pub new_cache : ℤ → ProjectionCache
new_cache ttl = record { ttl = ttl; max = default_entries; order = [] }

-- `c.entries[hashed]`.
unfoldable pub held_under : GoString → List Held → Option Held
held_under k [] = none
held_under k (h ∷ hs) = let rest = held_under k hs in if h.key == k then some h else rest

-- `removeLocked` of the element with a key: the map and the list lose it.
unfoldable pub drop_key : GoString → List Held → List Held
drop_key k [] = []
drop_key k (h ∷ hs) = let rest = drop_key k hs in if h.key == k then rest else h ∷ rest

-- `c.ttl <= 0`.
abbrev pub is_off : ℤ → Bool
is_off (pos n) = not (ltb 0 n)
is_off (negsuc n) = true

-- A life that is not positive adds nothing, and is never asked for.
abbrev pub life : ℤ → ℕ
life (pos n) = n
life (negsuc n) = 0

-- The first part of `Get`, under the lock: an expired element is removed, another one moves to the
-- front.
unfoldable pub look : GoString → ℕ → ProjectionCache → ProjectionCache × Option Entry
unfolding held_under drop_key
look hashed now c = if is_off c.ttl then (c, none) else elim (held_under hashed c.order) [
  | none ↦ (c, none)
  | some h ↦
      if not (ltb now h.expires)
      then (record c { order = drop_key hashed c.order }, none)
      else (record c { order = h ∷ drop_key hashed c.order }, some h.entry)
]

-- The rest of `Get`: an entry whose blob cannot be found is no answer, and is removed.
unfoldable pub check_blob :
    (GoString → Result BlobError Descriptor)
    → GoString
    → Option Entry
    → ProjectionCache
    → ProjectionCache × Option Entry
check_blob stat hashed none c = (c, none)
check_blob stat hashed (some entry) c = elim entry.patch [
  | none ↦ (c, some entry)
  | some blob ↦ elim (stat blob.digest) [
    | ok _ ↦ (c, some entry)
    | err _ ↦ (record c { order = drop_key hashed c.order }, none)
  ]
]

-- `Get` with nothing between its steps.
unfoldable pub get_projection :
    (GoString → Result BlobError Descriptor)
    → GoString
    → ℕ
    → ProjectionCache
    → ProjectionCache × Option Entry
unfolding look check_blob
get_projection stat hashed now c =
    let (c', found) = look hashed now c in check_blob stat hashed found c'

-- `Put`. The list is longer than `max` by one at most, and what is beyond it is at the back.
unfoldable pub put_projection : GoString → Entry → ℕ → ProjectionCache → ProjectionCache
unfolding held_under drop_key
put_projection hashed entry now c =
    let h : Held = record { key = hashed; entry = entry; expires = now + life c.ttl } in
    if is_off c.ttl
    then c
    else if is_some (held_under hashed c.order)
    then record c { order = h ∷ drop_key hashed c.order }
    else record c { order = take c.max (h ∷ c.order) }

-- `Len`.
unfoldable pub len : ProjectionCache → ℕ
len c = length c.order

-- What callers do, each step at its instant and with the hashed key of its caller; a caller that
-- found an entry removes it in a later step, when its blob was not there.
pub data Step : Type 0 where
  looks : GoString → ℕ → Step
  drops : GoString → Step
  puts : GoString → Entry → ℕ → Step

unfoldable pub cache_step : Step → ProjectionCache → ProjectionCache
unfolding look put_projection drop_key
cache_step (looks hashed now) c = (look hashed now c).0
cache_step (drops hashed) c = record c { order = drop_key hashed c.order }
cache_step (puts hashed entry now) c = put_projection hashed entry now c

unfoldable pub run_steps : List Step → ProjectionCache → ProjectionCache
unfolding cache_step
run_steps [] c = c
run_steps (s ∷ steps) c = run_steps steps (cache_step s c)
