-- ===== src/Tests/ServerTests.antt =====
-- internal/server: one push from its token to the queue.
use nit.Server.Resolve.{
  check_protocol_version, resolve_repository, resolve_workspace, resolve_base_commit, policy_for,
}
use nit.Server.Patches.{load_patch, store_patch}
use nit.Blob.{valid_digest, digest_of}
use nit.Patch.Parse.{
  parse, parse_bounds, parse_sections, parse_section, change_of, operation_of, shared_new_mode,
  shared_old_mode,
}
use nit.Patch.Sections.{split_sections, lines_of, open_section, scan_lines}
use nit.Enforce.Pass.{
  push, validate, resolve_mode, judge, judge_all, check_all, check_one, settle, all_denials,
}
use nit.Policy.Engine.Cache.{cached_evaluate, new_caching_engine, key_discrete}
use nit.Enforce.Guards.{guard_requirements, introduces_kind, is_protected, protected_requirements}
use nit.Enforce.Check.{requirements_of_op}
use nit.Policy.Rule.{
  has_action, action_discrete, matches_subject, subject_matches, matches_ref, first_match,
}
use nit.Queue.{submit, position, partition_key}
use nit.Patch.Render.{render}
use nit.Base.{
  ◌≡◌, ℕ, refl, true, false, none, some, List, [], ◌∷◌, ◌++◌, text, GoString, ok, err, pos, Option,
  length, value, IsOk, digits, find, str_discrete, lookup, insert, has_prefix, trim_space,
  trim_left_from, trim_right, all_space, space_length, split_from, Result, zero, suc, str_ltb,
}
use nit.Policy.Engine.{evaluate, consider, applying}
use nit.Store.SyncPoints.{SyncPoint, get_sync_point, sync_key_discrete}
use nit.Store.Tables.{repository_by_policy_id, workspace_by_id}
use nit.Store.Artifacts.{create_artifact}
use nit.Audit.Trail.{new_trail, append_records, record_all}
use nit.Blob.Memory.{Blobs, memory, put_blob, checked, received, get_blob}
use nit.Compress.{decompress}
use nit.Tokens.{TokenError, sign, verify, verify_parts, key_of_version, matches}
use nit.Store.Memory.{new, by_request_id, create, put, queue_position, next_id, older}
use nit.Store.Directory.{put_row}
use nit.Server.{ServerState, Deps, record_audit}
use nit.Server.Report.{PushRequest, push_records, push_report}
use nit.Server.Push.{
  handle_push, check_push, admit_push, authorize, settle_push, conclude_push, store_and_enqueue,
  enqueue_push,
}
use nit.Policy.Engine.{Policy}
use nit.Server.Front.{RepositoryView, readable_somewhere, probe}
use nit.Tests.Samples.{
  sample_globs, sample_gitdiff, sample_patch, no_guards, policy, writers, everywhere, as_alice,
}
use nit.Tests.TokensTests.{toy, acme, letters, bytes}
use nit.Tests.BlobTests.{toy_hash, zeros}
use nit.Tests.AuthTests.{sources, by_phone}

abbrev pub deps : Deps Blobs
deps = record {
  blobs = memory toy_hash;
  codec = toy;
  signer = acme;
  zstd = record {
    pack = λ b. some b;
    open_reader = λ b. some (record { bytes = b; fails = false });
  };
  policies = sources;
  marshal_push = λ spec. some spec.patch_digest;
  marshal_pull = λ spec. some spec.from_commit;
  guards = no_guards;
  max_patch_bytes = 1000;
  has_sink = true;
}

-- The sample patch has 49 bytes.
abbrev pub uploaded : GoString
uploaded = text "sha256:" ++ (zeros ++ text "9")

abbrev point : SyncPoint
point = record {
  tenant_id = text "default";
  workspace_id = text "ws-1";
  repository_id = text "repo-1";
  branch = text "main";
  upstream_commit = text "c1";
  policy_version = text "v1";
  created_at = 1;
  updated_at = 1;
}

abbrev pub server : ServerState Blobs
server = record {
  tasks = new;
  tables = record {
    seq = 1;
    workspaces =
        record {
          id = text "ws-1";
          tenant_id = text "default";
          user_id = text "user-1";
          label = [];
          created_at = 1;
          last_seen_at = none;
        }
        ∷ [];
    repositories =
        record {
          id = text "repo-1";
          tenant_id = text "default";
          policy_repo_id = text "api";
          remote = text "r";
          forge = [];
          default_branch = text "main";
          policy_version = text "v1";
          created_at = 1;
          updated_at = 1;
        }
        ∷ [];
    artifacts = [];
    policy_versions = [];
  };
  sync_points = ((text "ws-1", (text "repo-1", text "main")), point) ∷ [];
  blobs = (uploaded, sample_patch) ∷ [];
  trail = new_trail;
  sent = [];
}

-- What the signer mints for the sync point, one second after the epoch.
abbrev token_of : Result TokenError GoString → GoString
token_of (ok t) = t
token_of (err e) = []

abbrev push_main : PushRequest
push_main = record {
  protocol_version = text "1";
  request_id = text "q1";
  repository = text "api";
  branch = text "main";
  workspace = text "ws-1";
  base_sync = token_of (
      sign toy 1 acme (record {
        workspace = text "ws-1";
        repository = text "repo-1";
        branch = text "main";
        upstream_commit = text "c1";
        policy_version = text "v1";
        issued_at = pos 1;
      }));
  message = text "Fix";
  patch = record {
    digest = uploaded;
    size = pos 49;
    encoding = text "none";
    uncompressed_size = pos 49;
  };
  mode = text "reject";
  dry_run = false;
}

-- The push is accepted, as the first task.
accepts_main :
    (handle_push deps by_phone push_main 20 server).1
    ≡ ok (
      202,
      record {
        task_id = text "task-1";
        accepted = true;
        report = record {
          policy_version = text "v1";
          files_total = 2;
          files_accepted = 2;
          files_denied = 0;
          denials = [];
        };
        queue_position = 0;
      },
    )
unfolding handle_push check_push check_protocol_version by_request_id admit_push authorize
    resolve_repository repository_by_policy_id resolve_workspace workspace_by_id resolve_base_commit
    get_sync_point sync_key_discrete verify verify_parts key_of_version matches sign load_patch
    decompress valid_digest parse split_sections lines_of open_section scan_lines parse_bounds
    parse_sections parse_section change_of operation_of shared_new_mode shared_old_mode policy_for
    push validate resolve_mode judge judge_all check_all check_one cached_evaluate
    new_caching_engine guard_requirements introduces_kind is_protected protected_requirements
    requirements_of_op settle evaluate consider applying has_action action_discrete matches_subject
    subject_matches matches_ref first_match settle_push conclude_push store_and_enqueue store_patch
    enqueue_push record_audit push_records push_report all_denials append_records record_all
    create_artifact put_row memory put_blob checked received digest_of get_blob submit create put
    position queue_position next_id letters bytes render str_discrete find lookup insert has_prefix
    digits split_from older str_ltb partition_key key_discrete nit.Patch.Change.paths
    nit.Policy.Engine.scan nit.Policy.Pattern.matches nit.Base.drop_last nit.Base.count
    nit.Store.Memory.is_ahead
accepts_main = refl

abbrev api_view : RepositoryView
api_view = record { id = text "api"; default_branch = text "main"; forge = [] }

-- A policy that grants reading on refs that match a pattern.
abbrev on_refs : Policy
on_refs = record policy {
  rules = (text "api", record writers { refs = everywhere ∷ [] } ∷ []) ∷ [];
}

-- A repository that may be read on its main branch, and is not listed.
hides_on_refs :
    ((evaluate on_refs
        (record (probe (text "api") as_alice everywhere) { ref = text "refs/heads/main" })).allowed
      ≡ true)
    × (readable_somewhere on_refs as_alice (text "api") ≡ false)
unfolding readable_somewhere str_discrete lookup has_action action_discrete matches_subject
    subject_matches evaluate nit.Policy.Engine.scan consider applying matches_ref first_match
    nit.Policy.Pattern.matches has_prefix nit.Policy.Engine.better nit.Policy.Engine.conclude
    nit.Policy.Pattern.glob_hits nit.Policy.Pattern.prefix_before nit.Policy.Pattern.specificity
    nit.Base.drop_last
hides_on_refs = (refl, refl)
