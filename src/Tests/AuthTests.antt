-- ===== src/Tests/AuthTests.antt =====
-- internal/auth, with the identity for the hash.
use mathlib.Core.List.{[], ◌∷◌}
use nit.Base.{
  trim_space, trim_left_from, trim_right, all_space, space_length, ◌≡◌, ◌≢◌, refl, false, none,
  some, Option, text, GoString, ok, err, pos, digits, find, str_discrete, has_prefix, lookup,
}
use nit.Policy.Identity.{TenantId}
use nit.Policy.Engine.{Policy}
use nit.Policy.Compile.{subject}
use nit.Store.Memory.{next_id}
use nit.Store.Directory.{
  UserRow, Session, Directory, put_row, write_row, create_session, session_by_token_hash,
  user_by_id, revoke_session,
}
use nit.Auth.{
  bearer_token, folds_to, Principal, issue, revoke, resolve, authenticate, token_revoked,
  token_expired,
}
use nit.Auth.Granted.{IsGranted, authenticate-IsGranted}
use nit.Auth.Revoked.{authenticates, run_calls, revoke-authenticate}
use nit.Tests.Samples.{policy}

abbrev pub ann : UserRow
ann = record {
  id = text "user-1";
  tenant_id = text "default";
  policy_user_id = text "alice";
  email = text "a@x";
  display_name = text "Alice";
  disabled = false;
  created_at = 1;
  updated_at = 1;
}

abbrev pub only_ann : Directory
only_ann = record { seq = 1; users = ann ∷ []; sessions = [] }

abbrev pub sources : TenantId → Option Policy
sources tenant = some policy

abbrev pub same : GoString → GoString
same s = s

abbrev pub laptop : Session
laptop = record {
  id = text "session-2";
  tenant_id = text "default";
  user_id = text "user-1";
  token_hash = text "nit_abc";
  label = text "laptop";
  created_at = 10;
  expires_at = some 60;
  last_used_at = none;
  revoked_at = none;
}

abbrev pub phone : Session
phone = record laptop { id = text "session-3"; token_hash = text "nit_def" }

abbrev pub two_sessions : Directory
two_sessions = record only_ann { seq = 3; sessions = laptop ∷ phone ∷ [] }

reads_header : bearer_token (text "bearer  nit_abc ") ≡ ok (text "nit_abc")
unfolding bearer_token folds_to trim_space trim_left_from trim_right all_space space_length
reads_header = refl

issues_laptop :
    issue same [] (text "abc") 10 (text "user-1") (text "laptop") (pos 50) only_ann
    ≡ (record only_ann { seq = 2; sessions = laptop ∷ [] }, (text "nit_abc", laptop))
unfolding issue create_session put_row next_id digits
issues_laptop = refl

expires : (authenticate same sources 60 (text "nit_abc") two_sessions).1 ≡ err token_expired
unfolding authenticate resolve session_by_token_hash find str_discrete has_prefix
expires = refl

refuses_revoked :
    (authenticate same sources 20 (text "nit_abc") (revoke (text "session-2") 15 two_sessions).0).1
    ≡ err token_revoked
unfolding authenticate resolve session_by_token_hash find str_discrete has_prefix revoke
    revoke_session write_row
refuses_revoked = refl

abbrev pub by_phone : Principal
by_phone = record {
  user = ann;
  session = phone;
  tenant = text "default";
  subject = record { user_id = text "alice"; groups = [] };
  policy_version = policy.version;
}

lets_phone_in :
    (authenticate same sources 20 (text "nit_def") (
      run_calls same sources
        (authenticates (text "nit_abc") 17 ∷ [])
        (revoke (text "session-2") 15 two_sessions).0)).1
    ≡ ok by_phone
unfolding authenticate resolve session_by_token_hash user_by_id find str_discrete has_prefix revoke
    revoke_session write_row run_calls subject lookup
lets_phone_in = refl

authenticate-IsGranted_example :
    IsGranted same sources 20
      (text "nit_def")
      (run_calls same sources
        (authenticates (text "nit_abc") 17 ∷ [])
        (revoke (text "session-2") 15 two_sessions).0)
      by_phone
authenticate-IsGranted_example =
    authenticate-IsGranted same sources 20 (text "nit_def")
      (run_calls same sources (authenticates (text "nit_abc") 17 ∷ [])
        (revoke (text "session-2") 15 two_sessions).0)
      by_phone lets_phone_in

revoke-authenticate_example : text "session-3" ≢ text "session-2"
revoke-authenticate_example =
    revoke-authenticate same sources (text "session-2") 15 20
      (authenticates (text "nit_abc") 17 ∷ []) two_sessions (text "nit_def") by_phone lets_phone_in
