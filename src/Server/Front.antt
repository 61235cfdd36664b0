-- ===== src/Server/Front.antt =====
-- internal/server/http.go and meta.go: every handler runs behind the check of the caller's token;
-- the handlers that tell callers about themselves.
use nit.Base.{
  ℕ, Bool, ◌&&◌, Option, none, List, [], GoString, text, any, map, keep, Result, ok, err, ◌>>=◌,
}
use nit.Policy.Identity.{TenantId, RepoId, Subject, GroupId}
use nit.Policy.Pattern.{Doublestar, Pattern}
use nit.Policy.Rule.{Rule, read, is_allow, has_action, matches_subject}
use nit.Policy.Engine.{Policy, Request, evaluate, rules_of}
use nit.Store.Directory.{Directory}
use nit.Store.Tables.{
  Workspace, RepositoryRow, list_repositories, create_workspace, workspaces_of_user,
}
use nit.Auth.{
  AuthError, no_credentials, malformed_token, unknown_token, token_expired, token_revoked,
  user_disabled, unknown_subject, Principal, bearer_token, authenticate,
}
use nit.Server.{ServerState, Deps, ApiError, fails_with}
use nit.Server.Resolve.{policy_for}

-- `unauthorized`.
unfoldable pub unauthorized : AuthError → ApiError
unauthorized no_credentials = fails_with 401 (text "no_credentials")
unauthorized malformed_token = fails_with 401 (text "malformed_credentials")
unauthorized token_expired = fails_with 401 (text "token_expired")
unauthorized token_revoked = fails_with 401 (text "token_revoked")
unauthorized user_disabled = fails_with 403 (text "user_disabled")
unauthorized (unknown_subject name) = fails_with 403 (text "user_not_in_policy")
unauthorized unknown_token = fails_with 401 (text "invalid_token")

-- `authenticated`: the handler runs only for a principal. The sessions and the users are a part of
-- the store of their own.
unfoldable pub authenticated :
    {S A : Type 0}
    → (GoString → GoString)
    → (TenantId → Option Policy)
    → ℕ
    → GoString
    → (Principal → S → S × Result ApiError A)
    → Directory × S
    → (Directory × S) × Result ApiError A
authenticated hash sources now header handler (d, s) = elim (bearer_token header) [
  | err e ↦ ((d, s), err (unauthorized e))
  | ok token ↦
      let (d', result) = authenticate hash sources now token d in
      elim result [
        | err e ↦ ((d', s), err (unauthorized e))
        | ok p ↦ let (s', answer) = handler p s in ((d', s'), answer)
      ]
]

pub record WhoAmI : Type 0 where
  pub user : GoString
  pub email : GoString
  pub groups : List GroupId
  pub policy_version : GoString

unfoldable pub handle_who_am_i : Principal → WhoAmI
handle_who_am_i p = record {
  user = p.user.policy_user_id;
  email = p.user.email;
  groups = p.subject.groups;
  policy_version = p.policy_version;
}

pub record RepositoryView : Type 0 where
  pub id : GoString
  pub default_branch : GoString
  pub forge : GoString

abbrev pub repository_view : RepositoryRow → RepositoryView
repository_view r = record {
  id = r.policy_repo_id;
  default_branch = r.default_branch;
  forge = r.forge;
}

pub record WorkspaceView : Type 0 where
  pub id : GoString
  pub label : GoString

abbrev workspace_view : Workspace → WorkspaceView
workspace_view w = record { id = w.id; label = w.label }

module _ ⦃ds : Doublestar⦄ where
  abbrev pub probe : RepoId → Subject → Pattern → Request
  probe repo subject pat = record {
    repo = repo;
    ref = [];
    subject = subject;
    path = pat.raw;
    action = read;
  }

  abbrev pub offers : Policy → Subject → RepoId → Rule → Bool
  offers p subject repo r =
      is_allow r.effect
      && (has_action r read
          && (matches_subject r subject
              && any (λ pat. (evaluate p (probe repo subject pat)).allowed) r.paths))

  -- `readableSomewhere`: some pattern of a granting rule is itself readable, on no ref.
  unfoldable pub readable_somewhere : Policy → Subject → RepoId → Bool
  readable_somewhere p subject repo = any (offers p subject repo) (rules_of p repo)

  unfoldable pub handle_repositories :
      {B : Type 0} → Deps B → Principal → ServerState B → Result ApiError (List RepositoryView)
  unfolding readable_somewhere
  handle_repositories deps p s = policy_for deps.policies p.tenant >>= λ current. ok (
      map repository_view (
        keep (λ r. readable_somewhere current p.subject r.policy_repo_id)
          (list_repositories p.tenant s.tables)))

unfoldable pub handle_create_workspace :
    {B : Type 0} → ℕ → GoString → Principal → ServerState B → ServerState B × WorkspaceView
handle_create_workspace now label p s =
    let (tables, w) =
      create_workspace
        (record {
          id = [];
          tenant_id = p.tenant;
          user_id = p.user.id;
          label = label;
          created_at = now;
          last_seen_at = none;
        })
        s.tables in
    (record s { tables = tables }, workspace_view w)

unfoldable pub handle_list_workspaces :
    {B : Type 0} → Principal → ServerState B → List WorkspaceView
handle_list_workspaces p s = map workspace_view (workspaces_of_user p.user.id s.tables)
