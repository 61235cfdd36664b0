-- ===== src/Worker/State.antt =====
-- internal/worker/worker.go: what a worker holds and depends on.
--
-- git, the forges and encoding/json are parameters: `Git` has the operations of pkg/gitx and of the
-- mirror cache on a state that stands for the forge, the mirrors and the working tree.
use nit.Base.{
  ℕ, Bool, Option, none, some, List, [], ◌∷◌, GoString, text, is_empty, if◌then◌else◌, Result, ok,
  err,
}
use nit.Policy.Identity.{TenantId}
use nit.Policy.Engine.{Policy}
use nit.Enforce.Guards.{Guards}
use nit.Store.SyncPoints.{SyncPoints}
use nit.Store.Tables.{Tables}
use nit.Audit.Record.{Record}
use nit.Audit.Trail.{AuditRecord, Trail, record_all}
use nit.Tokens.{Codec, Signer}
use nit.Blob.{BlobStore}
use nit.Compress.{Zstd}
use nit.PullCache.{ProjectionCache}
use nit.Taskspec.{PatchBlob, PushSpec, PullSpec}

-- A failure of a task: an error of the protocol, with its code, or any other.
pub data TaskError : Type 0 where
  permanent : GoString → TaskError
  transient : TaskError

-- How applying a patch and rebasing end.
pub data Landing : Type 0 where
  landed conflicted broken : Landing

pub record Author : Type 0 where
  pub name : GoString
  pub email : GoString

pub record Git (G : Type 0) : Type 0 where
  pub authenticated_remote : GoString → GoString → Option GoString
  pub checkout_branch : GoString → GoString → GoString → G → G × Bool
  pub head : G → Option GoString
  pub checkout_commit : GoString → G → G × Bool
  pub apply : GoString → G → G × Landing
  pub commit_all : GoString → Author → ℕ → G → G × Option GoString
  pub rebase : GoString → Author → G → G × Landing
  -- To a remote's branch, with the commit that is expected there.
  pub push_branch : GoString → GoString → GoString → G → G × Bool
  pub diff : GoString → GoString → G → Option GoString
  pub empty_tree : G → Option GoString

pub record PullResult : Type 0 where
  pub patch : Option PatchBlob
  pub next_sync : GoString
  pub policy_version : GoString
  pub upstream_commit : GoString
  pub files_total : ℕ
  pub files_delivered : ℕ
  pub files_withheld : ℕ

pub record PushResult : Type 0 where
  pub upstream_commit : GoString
  pub next_sync : GoString
  pub policy_version : GoString

pub record WorkerDeps (B G : Type 0) : Type 0 where
  pub git : Git G
  pub blobs : BlobStore B
  pub codec : Codec
  pub signer : Signer
  pub zstd : Zstd
  pub sha256_hex : GoString → GoString
  pub policies : TenantId → Option Policy
  pub unmarshal_push : GoString → Option PushSpec
  pub unmarshal_pull : GoString → Option PullSpec
  pub marshal_push_result : PushResult → Option GoString
  pub marshal_pull_result : PullResult → Option GoString
  -- `detail`: encoding/json on a map of texts.
  pub detail : List (GoString × GoString) → GoString
  pub guards : Guards
  pub tenant : TenantId
  pub max_patch_bytes : ℕ
  pub artifact_ttl : ℕ
  pub has_sink : Bool

pub record WorkerState (B G : Type 0) : Type 0 where
  pub tables : Tables
  pub sync_points : SyncPoints
  pub blobs : B
  pub git : G
  pub pulls : ProjectionCache
  pub trail : Trail
  pub sent : List Record

-- `Record` of the worker's recorder.
unfoldable pub note_work :
    {B G : Type 0} → Bool → ℕ → GoString → AuditRecord → WorkerState B G → WorkerState B G
unfolding record_all
note_work has_sink now repository r s =
    let (trail, sent) = record_all has_sink now repository (r ∷ []) (s.trail, s.sent) in
    record s { trail = trail; sent = sent }

abbrev pub or_transient : {E A : Type 0} → Result E A → Result TaskError A
or_transient (err e) = err transient
or_transient (ok a) = ok a

abbrev pub some_or : {A : Type 0} → TaskError → Option A → Result TaskError A
some_or e none = err e
some_or e (some a) = ok a

-- `policyFor`: the task's tenant, or the worker's if it has none.
unfoldable pub worker_policy_for :
    (TenantId → Option Policy) → TenantId → TenantId → Result TaskError Policy
worker_policy_for policies own tenant =
    some_or (permanent (text "policy_unavailable"))
      (policies (if is_empty tenant then own else tenant))
