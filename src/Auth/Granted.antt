-- ===== src/Auth/Granted.antt =====
-- internal/auth/auth.go, `Authenticate`: who is let in.
use mathlib.Core.List.{List, Memᴰ}
use mathlib.Core.Path.{◌≡◌, refl}
use nit.Base.{
  is_some, ℕ, Bool, true, false, not, Option, some, GoString, ◌==◌, is_empty, has_prefix, ok,
  ok-injective, >>=-eq-ok, ◌>>◌, refuse_if, find, find-mem, arith, Result-cases, Option-cases, inl,
  inr,
}
use nit.Policy.Identity.{TenantId, Subject}
use nit.Policy.Engine.{Policy}
use nit.Policy.Compile.{subject}
use nit.Store.Directory.{
  UserRow, Directory, is_active, is_past, has_hash, session_by_token_hash, user_by_id,
  row_or_not_found,
}
use nit.Auth.{
  AuthError, no_credentials, malformed_token, unknown_token, token_expired, token_revoked,
  user_disabled, Principal, token_prefix, or_unknown, policy_of, subject_of, resolve, authenticate,
}

-- What stands behind a principal.
pub record IsGranted (hash : GoString → GoString) (sources : TenantId → Option Policy) (now : ℕ)
    (token : GoString) (d : Directory) (p : Principal) : Type 0 where
  pub prefixed : has_prefix token token_prefix ≡ true
  pub session_stored : Memᴰ p.session d.sessions
  pub hashed : p.session.token_hash ≡ hash token
  pub active : is_active now p.session ≡ true
  pub user_stored : Memᴰ p.user d.users
  pub owner : p.user.id ≡ p.session.user_id
  pub enabled : p.user.disabled ≡ false
  pub tenant_same : p.tenant ≡ p.session.tenant_id
  pub judged :
      (policy : Policy) × (sources p.tenant ≡ some policy)
      × (subject p.user.policy_user_id policy ≡ ok p.subject)
      × (p.policy_version ≡ policy.version)

or_unknown-row :
    {A : Type 0} (test : A → Bool) (rows : List A) (a : A)
    → or_unknown (row_or_not_found (find test rows)) ≡ ok a
    → Memᴰ a rows × (test a ≡ true)
or_unknown-row test rows a e = elim (Option-cases (find test rows)) [
  | inl f ↦ absurd (let k = rw f at e in cc)
  | inr (b, f) ↦ let same = ok-injective (rw f at e) in find-mem test rows (rw (← same) f)
]

refuse_if-ok :
    (refused : Bool) (e : AuthError) (u : Unit {0}) → refuse_if refused e ≡ ok u → refused ≡ false
refuse_if-ok true e u h = cc
refuse_if-ok false e u h = refl

policy_of-ok :
    (sources : TenantId → Option Policy) (t : TenantId) (p : Policy)
    → policy_of sources t ≡ ok p
    → sources t ≡ some p
policy_of-ok sources t p e = ground arith

subject_of-ok :
    (id : GoString) (p : Policy) (s : Subject) → subject_of id p ≡ ok s → subject id p ≡ ok s
subject_of-ok id p s e = elim (Result-cases (subject id p)) [
  | inl (fault, f) ↦ absurd (let k = rw (f, subject_of) at e in cc)
  | inr (b, f) ↦ let same = ok-injective (rw (f, subject_of) at e) in rw (← same) f
]

-- A token is let in only as a principal whose session is stored under its hash, has not been revoked
-- and has not expired, whose user is stored, owns the session and is not disabled, and whose subject
-- is the one that the policy in force for the session's tenant resolves for that user.
pub authenticate-IsGranted :
    (hash : GoString → GoString) (sources : TenantId → Option Policy) (now : ℕ) (token : GoString)
    (d : Directory) (p : Principal)
    → (authenticate hash sources now token d).1 ≡ ok p
    → IsGranted hash sources now token d p
unfolding authenticate resolve is_active session_by_token_hash user_by_id
authenticate-IsGranted hash sources now token d p e =
    let (_, start, e1) =
      >>=-eq-ok
        (refuse_if (is_empty token) no_credentials
          >> refuse_if (not (has_prefix token token_prefix)) malformed_token)
        _ e in
    let (session, found, e2) = >>=-eq-ok (or_unknown (session_by_token_hash (hash token) d)) _ e1 in
    let (_, live, e3) =
      >>=-eq-ok
        (refuse_if (not (session.token_hash == hash token)) unknown_token
          >> refuse_if (is_some session.revoked_at) token_revoked
          >> refuse_if (is_past now session.expires_at) token_expired)
        _ e2 in
    let (user, known, e4) = >>=-eq-ok (or_unknown (user_by_id session.user_id d)) _ e3 in
    let (_, enabled, e5) = >>=-eq-ok (refuse_if user.disabled user_disabled) _ e4 in
    let (policy, sourced, e6) = >>=-eq-ok (policy_of sources session.tenant_id) _ e5 in
    let (who, resolved, e7) = >>=-eq-ok (subject_of user.policy_user_id policy) _ e6 in
    let (session_mem, session_hash) =
      or_unknown-row (has_hash (hash token)) d.sessions session found in
    let (user_mem, user_id) =
      or_unknown-row (λ (u : UserRow). u.id == session.user_id) d.users user known in
    rw (← ok-injective e7) (record {
      prefixed = ground arith;
      session_stored = session_mem;
      hashed = ground arith;
      active = ground arith;
      user_stored = user_mem;
      owner = ground arith;
      enabled = refuse_if-ok user.disabled user_disabled _ enabled;
      tenant_same = refl;
      judged = (
        policy,
        policy_of-ok sources session.tenant_id policy sourced,
        subject_of-ok user.policy_user_id policy who resolved,
        refl,
      );
    })
