-- ===== src/Server.antt =====
-- internal/server: the handlers of the control plane, over the store in memory.
--
-- A handler gets the request that it decoded and the principal that the middleware found, and
-- answers with the state after it and a response. Texts of messages are left out of errors. An
-- instant is its number of nanoseconds, and one request sees one instant.
pub mod Resolve
pub mod Patches
pub mod Report
pub mod Push
pub mod Pull
pub mod Tasks
pub mod Front
pub mod Authorize
pub mod Limit
pub mod Stored
pub mod Admitted
pub mod Served
pub mod Listed
pub mod EndToEnd
use nit.Base.{
  ℕ, Bool, true, false, Option, none, some, List, [], ◌∷◌, ◌++◌, map, GoString, text, Result, ok,
  err, is_empty, if◌then◌else◌, ℤ,
}
use nit.Policy.Identity.{TenantId}
use nit.Policy.Engine.{Policy}
use nit.Enforce.Guards.{Guards}
use nit.Enforce.Check.{Check}
use nit.Store.Memory.{TaskStore}
use nit.Store.SyncPoints.{SyncPoints}
use nit.Store.Tables.{Tables}
use nit.Audit.Record.{Record}
use nit.Audit.Trail.{AuditRecord, Trail, record_all}
use nit.Tokens.{Codec, Signer}
use nit.Blob.{BlobStore}
use nit.Compress.{Zstd}
use nit.Taskspec.{PushSpec, PullSpec}

-- What the server holds: the tables of its store, its blobs, and what it sent to the audit sink.
pub record ServerState (B : Type 0) : Type 0 where
  pub tasks : TaskStore
  pub tables : Tables
  pub sync_points : SyncPoints
  pub blobs : B
  pub trail : Trail
  pub sent : List Record

-- The dependencies and the configuration. `marshal_push` and `marshal_pull` are encoding/json on the
-- instructions for a worker; `has_sink` is whether audit records are forwarded.
pub record Deps (B : Type 0) : Type 0 where
  pub blobs : BlobStore B
  pub codec : Codec
  pub signer : Signer
  pub zstd : Zstd
  pub policies : TenantId → Option Policy
  pub marshal_push : PushSpec → Option GoString
  pub marshal_pull : PullSpec → Option GoString
  pub guards : Guards
  pub max_patch_bytes : ℕ
  pub has_sink : Bool

-- `apiError`: the status, the code, and the denials that it carries.
pub record ApiError : Type 0 where
  pub status : ℕ
  pub code : GoString
  pub denials : List Check

-- `fail`.
abbrev pub fails_with : ℕ → GoString → ApiError
fails_with status code = record { status = status; code = code; denials = [] }

abbrev pub bad_request : ApiError
bad_request = fails_with 400 (text "bad_request")

-- What `writeError` answers for an error that is no `apiError`.
abbrev pub internal_error : ApiError
internal_error = fails_with 500 (text "internal")

abbrev pub or_internal : {E A : Type 0} → Result E A → Result ApiError A
or_internal (err e) = err internal_error
or_internal (ok a) = ok a

-- What the handlers record.
unfoldable pub record_audit :
    {B : Type 0} → Bool → ℕ → GoString → List AuditRecord → ServerState B → ServerState B
unfolding record_all
record_audit has_sink now repository rs s =
    let (trail, sent) = record_all has_sink now repository rs (s.trail, s.sent) in
    record s { trail = trail; sent = sent }
