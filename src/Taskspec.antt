-- ===== src/Taskspec.antt =====
-- internal/taskspec/taskspec.go, what the control plane hands a worker; and pkg/protocol, the
-- descriptor of a patch.
use nit.Base.{GoString, ℤ}

-- pkg/protocol/common.go, `Blob`.
pub record PatchBlob : Type 0 where
  pub digest : GoString
  pub size : ℤ
  pub encoding : GoString
  pub uncompressed_size : ℤ

pub record PushSpec : Type 0 where
  pub request_id : GoString
  pub repository : GoString
  pub remote : GoString
  pub forge : GoString
  pub branch : GoString
  pub base_commit : GoString
  pub patch_digest : GoString
  pub patch_encoding : GoString
  pub message : GoString
  pub dropped_files : ℤ
  pub author_name : GoString
  pub author_email : GoString
  pub user_id : GoString
  pub workspace_id : GoString
  pub policy_user_id : GoString
  pub policy_version : GoString

pub record PullSpec : Type 0 where
  pub request_id : GoString
  pub repository : GoString
  pub remote : GoString
  pub forge : GoString
  pub branch : GoString
  pub from_commit : GoString
  pub user_id : GoString
  pub workspace_id : GoString
  pub policy_user_id : GoString
  pub policy_version : GoString
