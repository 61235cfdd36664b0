-- ===== src/Auth.antt =====
-- internal/auth/auth.go: issuing, revoking and verifying the tokens of clients.
--
-- SHA-256 and the random part of a token are arguments, and so is `policy.Sources`: the policy in
-- force for a tenant, if there is one. The record that a session was used never fails the call.
pub mod Granted
pub mod Revoked
use mathlib.Core.List.{List, [], ◌∷◌, ◌++◌}
use nit.Base.{
  trim_space, nat_eq, is_some, ℕ, zero, suc, ◌+◌, Bool, true, false, not, ◌&&◌, ◌||◌, Option, none,
  some, GoString, text, ◌==◌, is_empty, has_prefix, length, drop, take, ltb, leb, if◌then◌else◌,
  Result, ok, err, ◌>>=◌, ◌>>◌, refuse_if, ℤ, pos, negsuc,
}
use nit.Policy.Identity.{TenantId, Subject, default_tenant}
use nit.Policy.Engine.{Policy}
use nit.Policy.Compile.{subject}
use nit.Store.Task.{StoreError}
use nit.Store.Directory.{
  UserRow, Session, Directory, is_past, session_by_token_hash, user_by_id, create_session,
  revoke_session, touch_session,
}

pub data AuthError : Type 0 where
  no_credentials : AuthError
  malformed_token : AuthError
  unknown_token : AuthError
  token_expired : AuthError
  token_revoked : AuthError
  user_disabled : AuthError
  unknown_subject : GoString → AuthError

pub record Principal : Type 0 where
  pub user : UserRow
  pub session : Session
  pub tenant : TenantId
  pub subject : Subject
  pub policy_version : GoString

abbrev pub token_prefix : GoString
token_prefix = text "nit_"

-- strings.EqualFold of a text with the scheme, whose letters have no case beyond ASCII.
unfoldable pub folds_to : GoString → GoString → Bool
folds_to [] [] = true
folds_to [] (p ∷ ps) = false
folds_to (c ∷ s) [] = false
folds_to (c ∷ s) (p ∷ ps) =
    let lower = if leb 65 c && leb c 90 then c + 32 else c in
    let other = if leb 65 p && leb p 90 then p + 32 else p in nat_eq lower other && folds_to s ps

abbrev pub non_empty_token : GoString → Result AuthError GoString
non_empty_token token = if is_empty token then err malformed_token else ok token

-- `BearerToken`.
unfoldable pub bearer_token : GoString → Result AuthError GoString
bearer_token header =
    if is_empty header
    then err no_credentials
    else if leb (length header) 7 || not (folds_to (take 7 header) (text "Bearer "))
    then err malformed_token
    else non_empty_token (trim_space (drop 7 header))

-- The tenant that `NewService` is given.
abbrev pub service_tenant : GoString → GoString
service_tenant tenant = if is_empty tenant then default_tenant else tenant

abbrev pub expiry_of : ℕ → ℤ → Option ℕ
expiry_of now (pos zero) = none
expiry_of now (pos (suc n)) = some (now + suc n)
expiry_of now (negsuc n) = none

-- `Issue`, where `encoded` is the encoded random part: the token, and the session.
unfoldable pub issue :
    (GoString → GoString)
    → GoString
    → GoString
    → ℕ
    → GoString
    → GoString
    → ℤ
    → Directory
    → Directory × (GoString × Session)
issue hash tenant encoded now user_id label ttl d =
    let token = token_prefix ++ encoded in
    let (after, created) =
      create_session now
        (record {
          id = [];
          tenant_id = service_tenant tenant;
          user_id = user_id;
          token_hash = hash token;
          label = label;
          created_at = now;
          expires_at = expiry_of now ttl;
          last_used_at = none;
          revoked_at = none;
        })
        d in
    (after, (token, created))

unfoldable pub revoke : GoString → ℕ → Directory → Directory × Option StoreError
revoke id now d = revoke_session id now d

-- An error of the store means that the row is not there.
abbrev pub or_unknown : {A : Type 0} → Result StoreError A → Result AuthError A
or_unknown (err e) = err unknown_token
or_unknown (ok a) = ok a

abbrev pub policy_of : (TenantId → Option Policy) → TenantId → Result AuthError Policy
policy_of sources tenant = elim (sources tenant) [
  | none ↦ err (unknown_subject tenant)
  | some p ↦ ok p
]

abbrev pub subject_of : GoString → Policy → Result AuthError Subject
subject_of id p = elim (subject id p) [ err e ↦ err (unknown_subject id) | ok s ↦ ok s ]

-- Everything that `Authenticate` asks before it records the use of the session.
unfoldable pub resolve :
    (GoString → GoString)
    → (TenantId → Option Policy)
    → ℕ
    → GoString
    → Directory
    → Result AuthError Principal
resolve hash sources now token d =
    refuse_if (is_empty token) no_credentials
    >> refuse_if (not (has_prefix token token_prefix)) malformed_token
    >> (or_unknown (session_by_token_hash (hash token) d) >>= λ session.
        refuse_if (not (session.token_hash == hash token)) unknown_token
        >> refuse_if (is_some session.revoked_at) token_revoked
        >> refuse_if (is_past now session.expires_at) token_expired
        >> (or_unknown (user_by_id session.user_id d) >>= λ user.
            refuse_if user.disabled user_disabled
            >> (policy_of sources session.tenant_id >>= λ policy.
                subject_of user.policy_user_id policy >>= λ subject. ok (record {
                  user = user;
                  session = session;
                  tenant = session.tenant_id;
                  subject = subject;
                  policy_version = policy.version;
                }))))

abbrev pub note_use : ℕ → Result AuthError Principal → Directory → Directory
note_use now (err e) d = d
note_use now (ok p) d = (touch_session p.session.id now d).0

-- `Authenticate`.
unfoldable pub authenticate :
    (GoString → GoString)
    → (TenantId → Option Policy)
    → ℕ
    → GoString
    → Directory
    → Directory × Result AuthError Principal
authenticate hash sources now token d =
    let result = resolve hash sources now token d in (note_use now result d, result)
