-- ===== src/Worker/Publish.antt =====
-- What the worker has published when its work on the tree succeeds.
use mathlib.Core.Path.{subst}
use nit.Base.{
  ℕ, ◌≡◌, ◌≢◌, ◌⊎◌, inl, inr, refl, sym, ap, ◌∙◌, true, false, some, GoString, ◌==◌, ok, err,
  Option-cases, Bool-cases, arith, ok-injective, str_discrete,
}
use nit.Taskspec.{PushSpec}
use nit.Worker.State.{TaskError, Landing, landed, conflicted, broken, WorkerDeps, Author}
use nit.Worker.Push.{Published, publish, replay, commit_patch, apply_patch, land, author_of}
use nit.Worker.Message.{commit_message}

Landing-cases : (l : Landing) → (l ≡ landed) ⊎ ((l ≡ conflicted) ⊎ (l ≡ broken))
Landing-cases landed = inl refl
Landing-cases conflicted = inr (inl refl)
Landing-cases broken = inr (inr refl)

module _ {B G : Type 0} (deps : WorkerDeps B G) (spec : PushSpec) (now : ℕ) where
  -- The author is the one of the instructions.
  abbrev pub IsAuthor : Author → Type 0
  IsAuthor a = (a.name ≡ spec.author_name) × (a.email ≡ spec.author_email)

  -- A commit is ready in the tree `g`: it is what committing gave, with nothing after it, and the
  -- branch is where it was at the base; or the branch had moved, and the commit is the head of the
  -- tree that rebasing it onto the tip gave.
  pub record IsReady (made tip : GoString) (g : G) (p : Published) (ready : G) : Type 0 where
    pub from_tip : p.tip ≡ tip
    pub how :
        ((tip ≡ spec.base_commit) × (p.rebased ≡ false) × (p.commit ≡ made) × (ready ≡ g))
        ⊎ ((tip ≢ spec.base_commit)
            × (p.rebased ≡ true)
            × ((who : Author) × IsAuthor who × (deps.git.rebase tip who g ≡ (ready, landed)))
            × (deps.git.head ready ≡ some p.commit))

  -- The run of git from a tree `g` to a publication: the branch was checked out and its tip read, the
  -- patch was applied to the base and committed under the message of the task, the commit was made
  -- ready, and the forge took the tree that has it where it expected the tip.
  pub record IsPublished (patch task_id : GoString) (g : G) (p : Published) (after : G)
      : Type 0 where
    pub remote : GoString
    pub known : deps.git.authenticated_remote spec.forge spec.remote ≡ some remote
    pub branch : G
    pub checked_out : deps.git.checkout_branch spec.remote remote spec.branch g ≡ (branch, true)
    pub tip : deps.git.head branch ≡ some p.tip
    pub base : G
    pub based : deps.git.checkout_commit spec.base_commit branch ≡ (base, true)
    pub patched : G
    pub applied : deps.git.apply patch base ≡ (patched, landed)
    pub who : Author
    pub by : IsAuthor who
    pub committed : G
    pub made : GoString
    pub commits :
        deps.git.commit_all (commit_message spec task_id) who now patched ≡ (committed, some made)
    pub ready : G
    pub is_ready : IsReady made p.tip committed p ready
    pub taken : deps.git.push_branch remote spec.branch p.tip ready ≡ (after, true)

  err_ok : {A : Type 0} {x : TaskError} {a : A} → err x ≢ ok a
  err_ok e = cc

  pair_of : {A C : Type 0} (r : A × C) {a : A} {c : C} → r.0 ≡ a → r.1 ≡ c → r ≡ (a, c)
  pair_of r e f = rw (← e, ← f) refl

  publish_ok :
      (remote : GoString) (q p : Published) (g after : G)
      → publish deps spec now remote q g ≡ (after, ok p)
      → (q ≡ p) × (deps.git.push_branch remote spec.branch q.tip g ≡ (after, true))
  unfolding publish
  publish_ok remote q p g after e =
      let out = deps.git.push_branch remote spec.branch q.tip g in
      elim (Bool-cases out.1) [
        | inr refused ↦ absurd (err_ok (rw (refused, publish) at (ap (λ r. r.1) e)))
        | inl pushed ↦ (
          ok-injective (rw (pushed, publish) at (ap (λ r. r.1) e)),
          pair_of out (ap (λ r. r.0) e) pushed,
        )
      ]

  -- The forge took a tree in which the commit is ready.
  record IsSent (remote made tip : GoString) (g : G) (p : Published) (after : G) : Type 0 where
    pub ready : G
    pub is_ready : IsReady made tip g p ready
    pub taken : deps.git.push_branch remote spec.branch p.tip ready ≡ (after, true)

  replay_unmoved :
      (remote tip made : GoString) (g after : G) (p : Published)
      → tip == spec.base_commit ≡ true
      → replay deps spec now remote tip made g ≡ (after, ok p)
      → IsSent remote made tip g p after
  unfolding replay str_discrete
  replay_unmoved remote tip made g after p same e =
      let (it, taken) = publish_ok remote _ p g after (rw (same, replay) at e) in
      rw (← it) (record {
        ready = g;
        is_ready = record { from_tip = refl; how = inl (ground arith, refl, refl, refl) };
        taken = taken;
      })

  replay_moved :
      (remote tip made commit : GoString) (g ready after : G) (p : Published)
      → tip == spec.base_commit ≡ false
      → deps.git.rebase tip (author_of deps spec now) g ≡ (ready, landed)
      → deps.git.head ready ≡ some commit
      → publish deps spec now remote (record { tip = tip; commit = commit; rebased = true }) ready
        ≡ (after, ok p)
      → IsSent remote made tip g p after
  unfolding str_discrete
  replay_moved remote tip made commit g ready after p moved rebased found e =
      let (it, taken) = publish_ok remote _ p ready after e in
      rw (← it) (record {
        ready = ready;
        is_ready = record {
          from_tip = refl;
          how = inr (ground arith, refl, (author_of deps spec now, (refl, refl), rebased), found);
        };
        taken = taken;
      })

  replay_ok :
      (remote tip made : GoString) (g after : G) (p : Published)
      → replay deps spec now remote tip made g ≡ (after, ok p)
      → IsSent remote made tip g p after
  unfolding replay
  replay_ok remote tip made g after p e = elim (Bool-cases (tip == spec.base_commit)) [
    | inl same ↦ replay_unmoved remote tip made g after p same e
    | inr moved ↦
        let out = deps.git.rebase tip (author_of deps spec now) g in
        elim (Landing-cases out.1) [
          | inr (inl f) ↦ absurd (err_ok (rw (moved, f, replay) at (ap (λ r. r.1) e)))
          | inr (inr f) ↦ absurd (err_ok (rw (moved, f, replay) at (ap (λ r. r.1) e)))
          | inl f ↦ elim (Option-cases (deps.git.head out.0)) [
            | inl lost ↦ absurd (err_ok (rw (moved, f, lost, replay) at (ap (λ r. r.1) e)))
            | inr (commit, found) ↦
                replay_moved remote tip made commit g out.0 after p moved (pair_of out refl f) found
                  (rw (moved, f, found, replay) at e)
          ]
        ]
  ]

  -- The commit was made in a tree, and sent.
  record IsCommitted (task_id remote tip : GoString) (g : G) (p : Published) (after : G)
      : Type 0 where
    pub committed : G
    pub made : GoString
    pub commits :
        deps.git.commit_all (commit_message spec task_id) (author_of deps spec now) now g
        ≡ (committed, some made)
    pub sent : IsSent remote made tip committed p after

  commit_patch_ok :
      (task_id remote tip : GoString) (g after : G) (p : Published)
      → commit_patch deps spec now task_id remote tip g ≡ (after, ok p)
      → IsCommitted task_id remote tip g p after
  unfolding commit_patch
  commit_patch_ok task_id remote tip g after p e =
      let out = deps.git.commit_all (commit_message spec task_id) (author_of deps spec now) now g in
      elim (Option-cases out.1) [
        | inl lost ↦ absurd (err_ok (rw (lost, commit_patch) at (ap (λ r. r.1) e)))
        | inr (made, commits) ↦ record {
          committed = out.0;
          made = made;
          commits = pair_of out refl commits;
          sent = replay_ok remote tip made out.0 after p (rw (commits, commit_patch) at e);
        }
      ]

  record IsPatched (patch task_id remote tip : GoString) (g : G) (p : Published) (after : G)
      : Type 0 where
    pub base : G
    pub based : deps.git.checkout_commit spec.base_commit g ≡ (base, true)
    pub patched : G
    pub applied : deps.git.apply patch base ≡ (patched, landed)
    pub commits : IsCommitted task_id remote tip patched p after

  apply_patch_ok :
      (patch task_id remote tip : GoString) (g after : G) (p : Published)
      → apply_patch deps spec now patch task_id remote tip g ≡ (after, ok p)
      → IsPatched patch task_id remote tip g p after
  unfolding apply_patch
  apply_patch_ok patch task_id remote tip g after p e =
      let based = deps.git.checkout_commit spec.base_commit g in
      elim (Bool-cases based.1) [
        | inr gone ↦ absurd (err_ok (rw (gone, apply_patch) at (ap (λ r. r.1) e)))
        | inl there ↦
            let out = deps.git.apply patch based.0 in
            elim (Landing-cases out.1) [
              | inr (inl f) ↦ absurd (err_ok (rw (there, f, apply_patch) at (ap (λ r. r.1) e)))
              | inr (inr f) ↦ absurd (err_ok (rw (there, f, apply_patch) at (ap (λ r. r.1) e)))
              | inl f ↦ record {
                base = based.0;
                based = pair_of based refl there;
                patched = out.0;
                applied = pair_of out refl f;
                commits =
                    commit_patch_ok task_id remote tip out.0 after p
                      (rw (there, f, apply_patch) at e);
              }
            ]
      ]

  IsPublished-by :
      (patch task_id remote tip : GoString) (g branch after : G) (p : Published)
      → deps.git.authenticated_remote spec.forge spec.remote ≡ some remote
      → deps.git.checkout_branch spec.remote remote spec.branch g ≡ (branch, true)
      → deps.git.head branch ≡ some tip
      → IsPatched patch task_id remote tip branch p after
      → IsPublished patch task_id g p after
  IsPublished-by patch task_id remote tip g branch after p known checked_out found run =
      let sent = run.commits.sent in
      let same = sent.is_ready.from_tip in
      record {
        remote = remote;
        known = known;
        branch = branch;
        checked_out = checked_out;
        tip = found ∙ ap some (sym same);
        base = run.base;
        based = run.based;
        patched = run.patched;
        applied = run.applied;
        who = author_of deps spec now;
        by = (refl, refl);
        committed = run.commits.committed;
        made = run.commits.made;
        commits = run.commits.commits;
        ready = sent.ready;
        is_ready =
            subst (λ t. IsReady run.commits.made t run.commits.committed p sent.ready) (sym same)
              sent.is_ready;
        taken = sent.taken;
      }

  pub land_ok :
      (patch task_id : GoString) (g after : G) (p : Published)
      → land deps spec now patch task_id g ≡ (after, ok p)
      → IsPublished patch task_id g p after
  unfolding land
  land_ok patch task_id g after p e =
      elim (Option-cases (deps.git.authenticated_remote spec.forge spec.remote)) [
        | inl lost ↦ absurd (err_ok (rw (lost, land) at (ap (λ r. r.1) e)))
        | inr (remote, known) ↦
            let out = deps.git.checkout_branch spec.remote remote spec.branch g in
            elim (Bool-cases out.1) [
              | inr gone ↦ absurd (err_ok (rw (known, gone, land) at (ap (λ r. r.1) e)))
              | inl there ↦ elim (Option-cases (deps.git.head out.0)) [
                | inl lost ↦ absurd (err_ok (rw (known, there, lost, land) at (ap (λ r. r.1) e)))
                | inr (tip, found) ↦
                    IsPublished-by patch task_id remote tip g out.0 after p known
                      (pair_of out refl there) found
                      (apply_patch_ok patch task_id remote tip out.0 after p
                        (rw (known, there, found, land) at e))
              ]
            ]
      ]
