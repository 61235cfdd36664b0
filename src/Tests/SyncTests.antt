-- ===== src/Tests/SyncTests.antt =====
-- internal/store/memory/memory.go, the sync points.
use mathlib.Core.List.{[], ◌∷◌}
use nit.Base.{◌≡◌, refl, none, some, err, text, GoString, str_discrete, lookup}
use nit.Store.Task.{not_found}
use nit.Store.SyncPoints.{
  SyncPoint, SyncPoints, key_of, sync_key_discrete, get_sync_point, delete_sync_point, expects,
  compare_and_set,
}

abbrev point_at : GoString → SyncPoint
point_at commit = record {
  tenant_id = text "acme";
  workspace_id = text "ws";
  repository_id = text "api";
  branch = text "main";
  upstream_commit = commit;
  policy_version = text "v1";
  created_at = 7;
  updated_at = 7;
}

abbrev points : SyncPoints
points = (key_of (point_at (text "c")), point_at (text "c")) ∷ []

moves : (compare_and_set (point_at (text "c1")) (text "c") points).1 ≡ none
unfolding compare_and_set expects lookup sync_key_discrete str_discrete
moves = refl

expects_one : (compare_and_set (point_at (text "c1")) (text "c") []).1 ≡ some not_found
unfolding compare_and_set expects lookup
expects_one = refl

deleted :
    get_sync_point (key_of (point_at [])) (delete_sync_point (key_of (point_at [])) points)
    ≡ err not_found
unfolding get_sync_point delete_sync_point lookup sync_key_discrete str_discrete
deleted = refl
