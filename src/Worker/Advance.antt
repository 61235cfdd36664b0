-- ===== src/Worker/Advance.antt =====
-- When a push moves the sync point of its workspace.
use mathlib.Core.Path.{subst}
use nit.Base.{
  ℕ, ◌≡◌, ◌⊎◌, inl, inr, refl, sym, ◌∙◌, ◌≢◌, lookup, ap, true, false, none, some, GoString, arith,
  ok, Result-cases, Option-cases, Bool-cases, pos, zero, ℤ, negsuc, suc,
}
use nit.Store.Task.{Task, StoreError}
use nit.Store.SyncPoints.{
  SyncPoints, SyncPoint, SyncKey, sync_key_discrete, key_of, commit_at, commit_of, stamped,
  stamped-upstream, IsGuarded, compare_and_set, compare_and_set-IsGuarded,
}
use nit.Store.Tables.{RepositoryRow, Tables, repository_by_policy_id}
use nit.Taskspec.{PushSpec}
use nit.Worker.State.{WorkerDeps, WorkerState, note_work}
use nit.Worker.Push.{
  Published, land, next_point, advance_sync_point, is_zero, next_sync, record_push, perform_push,
  work_push, load_enforced_patch,
}
use nit.Worker.Publish.{IsReady, IsPublished, land_ok}

compare_and_set_unchanged :
    (sp : SyncPoint) (expected : GoString) (m : SyncPoints) (e : StoreError)
    → (compare_and_set sp expected m).1 ≡ some e
    → (compare_and_set sp expected m).0 ≡ m
unfolding compare_and_set
compare_and_set_unchanged sp expected m e refused = ground arith

commit_at-stored :
    (sp : SyncPoint) (m after : SyncPoints)
    → lookup sync_key_discrete (key_of sp) after
      ≡ some (stamped (lookup sync_key_discrete (key_of sp) m) sp)
    → commit_at (key_of sp) after ≡ sp.upstream_commit
commit_at-stored sp m after e =
    ap commit_of e ∙ stamped-upstream (lookup sync_key_discrete (key_of sp) m) sp

zero_of : (n : ℤ) → is_zero n ≡ true → n ≡ pos 0
zero_of (pos zero) h = refl
zero_of (pos (suc n)) h = absurd cc
zero_of (negsuc n) h = absurd cc

module _ {B G : Type 0} (deps : WorkerDeps B G) (spec : PushSpec) (now : ℕ) where
  -- The sync point of the workspace, where the commit of the push is `made`: it had the base, has the
  -- commit, and no other sync point changed.
  pub record IsMoved (made : GoString) (tables : Tables) (before after : SyncPoints) : Type 0 where
    pub repo : RepositoryRow
    pub known : repository_by_policy_id deps.tenant spec.repository tables ≡ ok repo
    pub was : commit_at (spec.workspace_id, (repo.id, spec.branch)) before ≡ spec.base_commit
    pub is : commit_at (spec.workspace_id, (repo.id, spec.branch)) after ≡ made
    pub others :
        (key : SyncKey)
        → (spec.workspace_id, (repo.id, spec.branch)) ≢ key
        → lookup sync_key_discrete key after ≡ lookup sync_key_discrete key before

  -- A push that moved a sync point: nothing was dropped from the patch; the run of git, from the
  -- worker's trees, published the stored patch on a tip that was the base itself; and the sync point
  -- moved from the base to the commit that was made of the patch and that the forge took.
  pub record IsAdvanced (task : Task) (s : WorkerState B G) (before after : SyncPoints)
      : Type 0 where
    pub whole : spec.dropped_files ≡ pos 0
    pub patch : GoString
    pub loaded : load_enforced_patch deps spec s.blobs ≡ ok patch
    pub published : Published
    pub pushed : G
    pub run : IsPublished deps spec now patch task.id s.git published pushed
    pub alone : published.tip ≡ spec.base_commit
    pub unchanged : published.commit ≡ run.made
    pub sent : run.ready ≡ run.committed
    pub moved : IsMoved run.made s.tables before after

  IsMoved-by :
      (repo : RepositoryRow) (commit : GoString) (s : WorkerState B G) (after : SyncPoints)
      → repository_by_policy_id deps.tenant spec.repository s.tables ≡ ok repo
      → compare_and_set (next_point deps spec now repo commit) spec.base_commit s.sync_points
        ≡ (after, none)
      → IsMoved commit s.tables s.sync_points after
  IsMoved-by repo commit s after known e =
      let sp = next_point deps spec now repo commit in
      let guarded =
        subst (λ r. IsGuarded sp spec.base_commit s.sync_points r.0 r.1) e
          (compare_and_set-IsGuarded sp spec.base_commit s.sync_points) in
      record {
        repo = repo;
        known = known;
        was = guarded.accepted.0 refl;
        is = commit_at-stored sp s.sync_points after (guarded.stored refl);
        others = guarded.others;
      }

  advance_cases :
      (commit : GoString) (s : WorkerState B G)
      → let s' = (advance_sync_point deps spec now commit s).0 in
        (s'.sync_points ≡ s.sync_points) ⊎ IsMoved commit s.tables s.sync_points s'.sync_points
  unfolding advance_sync_point
  advance_cases commit s =
      elim (Result-cases (repository_by_policy_id deps.tenant spec.repository s.tables)) [
        | inl (e, unknown) ↦ inl (rw (unknown, advance_sync_point) refl)
        | inr (repo, known) ↦
            let sp = next_point deps spec now repo commit in
            let moved = compare_and_set sp spec.base_commit s.sync_points in
            elim (Option-cases moved.1) [
              | inl set ↦
                  let done = IsMoved-by repo commit s moved.0 known (ap (λ e. (moved.0, e)) set) in
                  subst
                    (λ st.
                      (st.sync_points ≡ s.sync_points)
                      ⊎ IsMoved commit s.tables s.sync_points st.sync_points)
                    (sym (advanced repo commit s known)) (inr done)
              | inr (e, refused) ↦
                  rw (known, advance_sync_point)
                    (inl (compare_and_set_unchanged sp spec.base_commit s.sync_points e refused))
            ]
      ]
    where
      advanced :
          (repo : RepositoryRow) (commit : GoString) (s : WorkerState B G)
          → repository_by_policy_id deps.tenant spec.repository s.tables ≡ ok repo
          → (advance_sync_point deps spec now commit s).0 ≡ record s {
            sync_points =
                (compare_and_set
                  (next_point deps spec now repo commit)
                  spec.base_commit
                  s.sync_points).0;
          }
      advanced repo commit s known = rw (known, advance_sync_point) refl

  -- What is ready on an unmoved branch is the commit that was made.
  alone_ready :
      (made tip : GoString) (g ready : G) (p : Published)
      → IsReady deps spec now made tip g p ready
      → p.rebased ≡ false
      → (tip ≡ spec.base_commit) × (p.commit ≡ made) × (ready ≡ g)
  alone_ready made tip g ready p is_ready alone = elim is_ready.how [
    | inl (same, _, commit, tree) ↦ (same, commit, tree)
    | inr (_, rebased, _, _) ↦ absurd (let h = sym rebased ∙ alone in cc)
  ]

  module _ (task : Task) (patch : GoString) (p : Published) (pushed : G) (s : WorkerState B G)
      (loaded : load_enforced_patch deps spec s.blobs ≡ ok patch)
      (run : IsPublished deps spec now patch task.id s.git p pushed) where
    abbrev moved_on : WorkerState B G
    moved_on = record s { git = pushed }

    IsAdvanced-by :
        (after : SyncPoints)
        → p.rebased ≡ false
        → is_zero spec.dropped_files ≡ true
        → IsMoved p.commit s.tables s.sync_points after
        → IsAdvanced task s s.sync_points after
    IsAdvanced-by after alone whole moved =
        let (same, commit, tree) =
          alone_ready run.made p.tip run.committed run.ready p run.is_ready alone in
        record {
          whole = zero_of spec.dropped_files whole;
          patch = patch;
          loaded = loaded;
          published = p;
          pushed = pushed;
          run = run;
          alone = same;
          unchanged = commit;
          sent = tree;
          moved = subst (λ c. IsMoved c s.tables s.sync_points after) commit moved;
        }

    next_sync_cases :
        let t' = (next_sync deps spec now p moved_on).0 in
        (t'.sync_points ≡ s.sync_points) ⊎ IsAdvanced task s s.sync_points t'.sync_points
    unfolding next_sync
    next_sync_cases = elim (Bool-cases p.rebased) [
      | inl rebased ↦ inl (rw (rebased, next_sync) refl)
      | inr alone ↦ elim (Bool-cases (is_zero spec.dropped_files)) [
        | inr dropped ↦ inl (rw (alone, dropped, next_sync) refl)
        | inl whole ↦
            rw (alone, whole, next_sync)
              (elim (advance_cases p.commit moved_on) [
                | inl same ↦ inl same
                | inr moved ↦ inr (IsAdvanced-by _ alone whole moved)
              ])
      ]
    ]

    record_push_cases :
        let t' = (record_push deps spec now task p moved_on).0 in
        (t'.sync_points ≡ s.sync_points) ⊎ IsAdvanced task s s.sync_points t'.sync_points
    unfolding record_push note_work
    record_push_cases = elim (Result-cases (next_sync deps spec now p moved_on).1) [
      | inl (e, fails) ↦ rw (fails, record_push) next_sync_cases
      | inr (token, minted) ↦ rw (minted, record_push) next_sync_cases
    ]

  perform_push_cases :
      (task : Task) (s : WorkerState B G)
      → let s' = (perform_push deps spec now task s).0 in
        (s'.sync_points ≡ s.sync_points) ⊎ IsAdvanced task s s.sync_points s'.sync_points
  unfolding perform_push
  perform_push_cases task s = elim (Result-cases (load_enforced_patch deps spec s.blobs)) [
    | inl (e, missing) ↦ inl (rw (missing, perform_push) refl)
    | inr (patch, loaded) ↦
        let done = land deps spec now patch task.id s.git in
        elim (Result-cases done.1) [
          | inl (e, failed) ↦ inl (rw (loaded, failed, perform_push) refl)
          | inr (p, published) ↦
              let run =
                land_ok deps spec now patch task.id s.git done.0 p
                  (ap (λ r. (done.0, r)) published) in
              rw (loaded, published, perform_push)
                (record_push_cases task patch p done.0 s loaded run)
        ]
  ]

-- The worker moves a sync point only for a push from which nothing was dropped and of which this is
-- true: in the worker's trees, it checked out the branch, whose tip was the very base of the push,
-- applied to that base the patch that is stored for the task, committed it under the message of the
-- task, for the author of the push; and the forge took the tree with that commit, and nothing after
-- it, where it expected the base. Then the sync point of the workspace, which had the base, has that
-- commit, and no other sync point changes. In all other cases, failures included, none changes.
pub work_push-IsAdvanced :
    {B G : Type 0} (deps : WorkerDeps B G) (now : ℕ) (task : Task) (s : WorkerState B G)
    → let s' = (work_push deps now task s).0 in
      (s'.sync_points ≡ s.sync_points)
      ⊎ ((spec : PushSpec) × (deps.unmarshal_push task.payload ≡ some spec)
          × IsAdvanced deps spec now task s s.sync_points s'.sync_points)
unfolding work_push
work_push-IsAdvanced deps now task s = elim (Option-cases (deps.unmarshal_push task.payload)) [
  | inl malformed ↦ inl (rw (malformed, work_push) refl)
  | inr (spec, decoded) ↦
      rw (decoded, work_push)
        (elim (perform_push_cases deps spec now task s) [
          | inl same ↦ inl same
          | inr advanced ↦ inr (spec, refl, advanced)
        ])
]
