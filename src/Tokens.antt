-- ===== src/Tokens.antt =====
-- internal/synctoken/synctoken.go: the signed tokens that clients hand back.
--
-- What the Go library does is a parameter: `Codec` has its functions, and `CodecLaws` what is
-- documented of them and relied on here.
mod Split
pub mod Verify
use mathlib.Core.List.{List, [], ◌∷◌, ◌++◌}
use nit.Base.{
  ◌≡◌, ◌≢◌, ℕ, Bool, true, not, ◌&&◌, Option, none, some, GoString, text, ◌==◌, is_empty, length,
  ltb, nat_eq, if◌then◌else◌, Result, ok, err, split, ℤ, pos, All,
}
use nit.Policy.Identity.{default_tenant}

pub record TokenPayload : Type 0 where
  pub workspace : GoString
  pub repository : GoString
  pub branch : GoString
  pub upstream_commit : GoString
  pub policy_version : GoString
  pub issued_at : ℤ

-- hkdf.Key with SHA-256, no salt and 32 bytes, by secret and info; the HMAC-SHA256 of a message
-- under a key; base64.RawURLEncoding; encoding/json on payloads; utf8.ValidString.
pub record Codec : Type 0 where
  pub derive : GoString → GoString → Option GoString
  pub hmac : GoString → GoString → GoString
  pub encode : GoString → GoString
  pub decode : GoString → Option GoString
  pub marshal : TokenPayload → Option GoString
  pub unmarshal : GoString → Option TokenPayload
  pub is_utf8 : GoString → Bool

-- JSON text keeps strings that are valid UTF-8.
abbrev pub is_text : Codec → TokenPayload → Bool
is_text c p =
    c.is_utf8 p.workspace
    && (c.is_utf8 p.repository
        && (c.is_utf8 p.branch && (c.is_utf8 p.upstream_commit && c.is_utf8 p.policy_version)))

pub record CodecLaws (c : Codec) : Type 0 where
  pub decode_encode : (b : GoString) → c.decode (c.encode b) ≡ some b
  -- The alphabet of the encoding has no full stop.
  pub encode_plain : (b : GoString) → All (λ x. x ≢ 46) (c.encode b)
  pub unmarshal_marshal :
      (p : TokenPayload)
      → is_text c p ≡ true
      → (b : GoString) × (c.marshal p ≡ some b) × (c.unmarshal b ≡ some p)

pub data TokenError : Type 0 where
  malformed : TokenError
  bad_signature : TokenError
  short_key : TokenError
  no_tenant : TokenError
  -- An error of `hkdf.Key` or of `json.Marshal`.
  failed_library : TokenError

abbrev pub token_version : GoString
token_version = text "st2"

abbrev pub legacy_version : GoString
legacy_version = text "st1"

-- `NewRoot`: the root is its key.
unfoldable pub new_root : GoString → Result TokenError GoString
new_root key = if ltb (length key) 32 then err short_key else ok key

pub record Signer : Type 0 where
  pub key : GoString
  pub root : GoString
  pub tenant : GoString

unfoldable pub signer_for : Codec → GoString → GoString → Result TokenError Signer
signer_for c root tenant =
    if is_empty tenant
    then err no_tenant
    else elim (c.derive root (text "nit/" ++ (token_version ++ (text "/tenant/" ++ tenant)))) [
      | none ↦ err failed_library
      | some key ↦ ok (record { key = key; root = root; tenant = tenant })
    ]

abbrev pub mac_with : Codec → GoString → GoString → GoString
mac_with c key message = c.encode (c.hmac key message)

-- `version + "." + encoded`.
abbrev pub dotted : GoString → GoString → GoString
dotted head rest = head ++ 46 ∷ rest

abbrev pub is_unissued : ℤ → Bool
is_unissued (pos n) = nat_eq n 0
is_unissued _ = not true

abbrev pub issued : ℕ → TokenPayload → TokenPayload
issued now p = if is_unissued p.issued_at then record p { issued_at = pos now } else p

unfoldable pub sign : Codec → ℕ → Signer → TokenPayload → Result TokenError GoString
sign c now s p = elim (c.marshal (issued now p)) [
  | none ↦ err failed_library
  | some body ↦
      let signed = dotted token_version (c.encode body) in
      ok (dotted signed (mac_with c s.key signed))
]

-- The key that checks a token of a version.
unfoldable pub key_of_version : Signer → GoString → Result TokenError GoString
key_of_version s version =
    if version == token_version
    then ok s.key
    else if version == legacy_version
    then (if s.tenant == default_tenant then ok s.root else err bad_signature)
    else err malformed

abbrev pub or_malformed : {A : Type 0} → Option A → Result TokenError A
or_malformed none = err malformed
or_malformed (some a) = ok a

abbrev pub read_body : Codec → GoString → Result TokenError TokenPayload
read_body c body = elim (c.decode body) [
  | none ↦ err malformed
  | some bytes ↦ or_malformed (c.unmarshal bytes)
]

unfoldable pub verify_parts : Codec → Signer → List GoString → Result TokenError TokenPayload
verify_parts c s (version ∷ body ∷ mac ∷ []) = elim (key_of_version s version) [
  | err e ↦ err e
  | ok key ↦
      if mac == mac_with c key (dotted version body) then read_body c body else err bad_signature
]
verify_parts c s _ = err malformed

unfoldable pub verify : Codec → Signer → GoString → Result TokenError TokenPayload
verify c s token = verify_parts c s (split token 46)

unfoldable pub matches : TokenPayload → GoString → GoString → GoString → Bool
matches p workspace repository branch =
    p.workspace == workspace && (p.repository == repository && p.branch == branch)
