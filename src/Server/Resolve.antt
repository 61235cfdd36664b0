-- ===== src/Server/Resolve.antt =====
-- internal/server/resolve.go, tenant.go and http.go: what a request names is looked up, and refused
-- when it is not the caller's.
use nit.Base.{
  ℕ, ◌/◌, not, ◌||◌, Option, none, some, [], GoString, text, ◌==◌, is_empty, if◌then◌else◌, Result,
  ok, err, ◌>>=◌, ◌>>◌, refuse_if, pos,
}
use nit.Policy.Identity.{TenantId}
use nit.Policy.Engine.{Policy}
use nit.Store.Task.{StoreError, not_found}
use nit.Store.SyncPoints.{SyncPoints, get_sync_point}
use nit.Store.Tables.{Workspace, RepositoryRow, Tables, workspace_by_id, repository_by_policy_id}
use nit.Tokens.{Codec, Signer, TokenPayload, TokenError, sign, verify, matches}
use nit.Server.{ApiError, fails_with, bad_request, internal_error}

abbrev pub protocol_version : GoString
protocol_version = text "1"

unfoldable pub check_protocol_version : GoString → Result ApiError (Unit {0})
check_protocol_version version =
    refuse_if (not (is_empty version || version == protocol_version))
      (fails_with 400 (text "unsupported_version"))

-- A row that is not there is refused with its own error; any other error is internal.
abbrev pub or_absent : {A : Type 0} → ApiError → Result StoreError A → Result ApiError A
or_absent absent (err not_found) = err absent
or_absent absent (err e) = err internal_error
or_absent absent (ok a) = ok a

abbrev pub unknown_repository : ApiError
unknown_repository = fails_with 404 (text "unknown_repository")

unfoldable pub resolve_repository : TenantId → GoString → Tables → Result ApiError RepositoryRow
resolve_repository tenant name t =
    refuse_if (is_empty name) bad_request
    >> or_absent unknown_repository (repository_by_policy_id tenant name t)

abbrev pub unknown_workspace : ApiError
unknown_workspace = fails_with 404 (text "unknown_workspace")

-- A workspace of another user is answered like one that is not there.
unfoldable pub resolve_workspace : GoString → GoString → Tables → Result ApiError Workspace
resolve_workspace user id t =
    refuse_if (is_empty id) bad_request
    >> (or_absent unknown_workspace (workspace_by_id id t) >>= λ w.
        refuse_if (not (w.user_id == user)) unknown_workspace >> ok w)

abbrev pub unknown_sync_point : ApiError
unknown_sync_point = fails_with 409 (text "unknown_sync_point")

abbrev pub stale_sync_point : ApiError
stale_sync_point = fails_with 409 (text "stale_sync_point")

-- Any error of `Verify`.
abbrev pub or_invalid : Result TokenError TokenPayload → Result ApiError TokenPayload
or_invalid (err e) = err bad_request
or_invalid (ok p) = ok p

unfoldable pub resolve_base_commit :
    Codec
    → Signer
    → GoString
    → GoString
    → GoString
    → GoString
    → SyncPoints
    → Result ApiError GoString
resolve_base_commit codec signer token workspace repository branch points =
    or_absent unknown_sync_point (get_sync_point (workspace, (repository, branch)) points)
    >>= λ stored.
        refuse_if (is_empty token) stale_sync_point
        >> (or_invalid (verify codec signer token) >>= λ payload.
            refuse_if (not (matches payload workspace repository branch)) bad_request
            >> (refuse_if (not (payload.upstream_commit == stored.upstream_commit)) stale_sync_point
                >> ok stored.upstream_commit))

-- A pull starts from what the client's token says; without one, from nothing.
unfoldable pub resolve_pull_base :
    Codec → Signer → GoString → GoString → GoString → GoString → Result ApiError GoString
resolve_pull_base codec signer token workspace repository branch =
    if is_empty token
    then ok []
    else or_invalid (verify codec signer token) >>= λ payload.
        refuse_if (not (matches payload workspace repository branch)) bad_request
        >> ok payload.upstream_commit

-- The instant in seconds.
unfoldable pub mint_sync_token :
    Codec
    → Signer
    → ℕ
    → GoString
    → GoString
    → GoString
    → GoString
    → GoString
    → Result TokenError GoString
mint_sync_token codec signer now workspace repository branch commit version =
    sign codec (now / 1000000000) signer (record {
      workspace = workspace;
      repository = repository;
      branch = branch;
      upstream_commit = commit;
      policy_version = version;
      issued_at = pos (now / 1000000000);
    })

unfoldable pub policy_for : (TenantId → Option Policy) → TenantId → Result ApiError Policy
policy_for policies tenant = elim (policies tenant) [
  | none ↦ err (fails_with 503 (text "policy_unavailable"))
  | some p ↦ ok p
]
