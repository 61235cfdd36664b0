-- ===== src/Tests/WorkTests.antt =====
-- internal/worker, over a toy of git whose state is the tip of the one branch.
use nit.Base.{
  ◌≡◌, ◌≢◌, ◌⊎◌, ◌≤◌, ℕ, refl, true, false, none, some, List, [], ◌∷◌, ◌++◌, text, GoString, ok,
  err, pos, Option, ◌==◌, str_discrete, arith, length, has_prefix, lookup,
}
use nit.Policy.Rule.{read}
use nit.Policy.Engine.{Policy}
use nit.Policy.Profile.{profile, profile_bytes}
use nit.Policy.Compile.{subject}
use nit.Store.Task.{Task, task_push, running, task_pull, succeeded, state_eq}
use nit.Store.Memory.{by_id, TaskStore}
use nit.Store.SyncPoints.{SyncPoint}
use nit.Blob.Memory.{Blobs, memory}
use nit.Compress.{decompress}
use nit.Audit.Trail.{new_trail}
use nit.PullCache.{new_cache}
use nit.Taskspec.{PushSpec}
use nit.Server.Tasks.{handle_task_patch}
use nit.Server.Served.{handle_task_patch-IsOwned}
use nit.Worker.State.{Git, landed, WorkerDeps, WorkerState}
use nit.Worker.Push.{work_push}
use nit.Worker.Advance.{IsAdvanced, work_push-IsAdvanced}
use nit.Worker.Filter.{reader_of, filter_for_reader}
use nit.Worker.Shared.{filter_for_reader-profile}
use nit.Tests.Samples.{sample_globs, sample_gitdiff, sample_patch, no_guards, policy, alice}
use nit.Tests.TokensTests.{toy, acme}
use nit.Tests.BlobTests.{toy_hash}
use nit.Tests.AuthTests.{by_phone}
use nit.Tests.ServerTests.{deps, server, uploaded}

-- Everything applies, a commit is "c2", and the forge takes what expects its tip.
abbrev toy_git : Git GoString
toy_git = record {
  authenticated_remote = λ forge remote. some remote;
  checkout_branch = λ identity remote branch g. (g, true);
  head = λ g. some g;
  checkout_commit = λ commit g. (g, true);
  apply = λ patch g. (g, landed);
  commit_all = λ message author now g. (g, some (text "c2"));
  rebase = λ tip author g. (g, landed);
  push_branch = λ remote branch expected g. (text "c2", g == expected);
  diff = λ from to g. some sample_patch;
  empty_tree = λ g. some (text "e");
}

abbrev spec : PushSpec
spec = record {
  request_id = text "q1";
  repository = text "api";
  remote = text "r";
  forge = [];
  branch = text "main";
  base_commit = text "c1";
  patch_digest = uploaded;
  patch_encoding = text "none";
  message = text "Fix";
  dropped_files = pos 0;
  author_name = text "Alice";
  author_email = text "a@x";
  user_id = text "user-1";
  workspace_id = text "ws-1";
  policy_user_id = text "alice";
  policy_version = text "v1";
}

abbrev works : WorkerDeps Blobs GoString
works = record {
  git = toy_git;
  blobs = memory toy_hash;
  codec = toy;
  signer = acme;
  zstd = deps.zstd;
  sha256_hex = λ b. b;
  policies = deps.policies;
  unmarshal_push = λ payload. some (record spec { base_commit = payload });
  unmarshal_pull = λ payload. none;
  marshal_push_result = λ r. some r.upstream_commit;
  marshal_pull_result = λ r. some r.upstream_commit;
  detail = λ fields. [];
  guards = no_guards;
  tenant = text "default";
  max_patch_bytes = 1000;
  artifact_ttl = 100;
  has_sink = false;
}

-- The tip of the branch is the base of the sample's sync point.
abbrev idle : WorkerState Blobs GoString
idle = record {
  tables = server.tables;
  sync_points = server.sync_points;
  blobs = server.blobs;
  git = text "c1";
  pulls = new_cache (pos 25);
  trail = new_trail;
  sent = [];
}

abbrev pushed : Task
pushed = record {
  id = text "task-1";
  tenant_id = text "default";
  request_id = text "q1";
  kind = task_push;
  state = running;
  user_id = text "user-1";
  workspace_id = text "ws-1";
  repository_id = text "repo-1";
  branch = text "main";
  partition_key = text "api:main";
  payload = text "c1";
  outcome = [];
  error = none;
  attempts = 1;
  lease = none;
  created_at = 1;
  updated_at = 1;
  started_at = none;
  finished_at = none;
}

-- The push lands on its base.
lands : (work_push works 30 pushed idle).1 ≡ ok (text "c2")
unfolding work_push memory nit.Blob.Memory.get_blob nit.Blob.valid_digest has_prefix lookup
    str_discrete decompress nit.Store.Tables.repository_by_policy_id nit.Base.find
    nit.Store.SyncPoints.compare_and_set nit.Store.SyncPoints.expects
    nit.Store.SyncPoints.sync_key_discrete nit.Tokens.sign
lands = refl

work_push-IsAdvanced_example :
    let after = (work_push works 30 pushed idle).0 in
    (after.sync_points ≡ idle.sync_points)
    ⊎ ((s : PushSpec) × (works.unmarshal_push (text "c1") ≡ some s)
        × IsAdvanced works s 30 pushed idle idle.sync_points after.sync_points)
work_push-IsAdvanced_example = work_push-IsAdvanced works 30 pushed idle

abbrev two_users : Policy
two_users = record policy {
  users = (text "alice", alice) ∷ (text "bob", record alice { id = text "bob" }) ∷ [];
  memberships = (text "alice", []) ∷ (text "bob", []) ∷ [];
}

-- Neither reader has groups.
filter_for_reader-profile_example :
    filter_for_reader no_guards two_users (text "api") (text "main") (text "alice") sample_patch
    ≡ filter_for_reader no_guards two_users (text "api") (text "main") (text "bob") sample_patch
unfolding reader_of subject profile profile_bytes lookup str_discrete
    nit.Policy.Rule.matches_subject nit.Policy.Rule.subject_matches
filter_for_reader-profile_example =
    filter_for_reader-profile no_guards two_users (text "api") (text "main") (λ b. b) sample_patch
      (text "alice") (text "bob") (record { user_id = text "alice"; groups = [] })
      (record { user_id = text "bob"; groups = [] }) refl refl (λ e. cc) (λ e. cc) (λ e. e) refl

-- A pull that has succeeded, of the user of the phone.
abbrev done_pull : TaskStore
done_pull = record {
  seq = 1;
  tasks =
      record pushed {
        kind = task_pull;
        state = succeeded;
        outcome = uploaded;
        user_id = text "user-1";
      }
      ∷ [];
}

handle_task_patch-IsOwned_example :
    let s = record server { tasks = done_pull } in
    (t : Task) × (digest : GoString) × (by_id (text "task-1") done_pull ≡ ok t)
    × (t.user_id ≡ text "user-1")
    × (t.kind ≡ task_pull)
    × (state_eq t.state succeeded ≡ true)
    × (some (some t.outcome) ≡ some (some digest))
    × (deps.blobs.get digest s.blobs ≡ ok sample_patch)
unfolding handle_task_patch by_id nit.Base.find str_discrete memory nit.Blob.Memory.get_blob
    nit.Blob.valid_digest has_prefix lookup
handle_task_patch-IsOwned_example =
    handle_task_patch-IsOwned deps (λ outcome. some (some outcome)) by_phone (text "task-1")
      (record server { tasks = done_pull }) sample_patch refl
