-- ===== src/Server/Admitted.antt =====
-- What a push that is queued stands for.
use mathlib.Core.Path.{subst}
use nit.Base.{
  ℕ, ◌+◌, ◌<◌, ◌^◌, ◌≡◌, ◌≢◌, ◌⊎◌, inl, inr, refl, sym, ap, ◌∙◌, true, false, Option, none, some,
  [], GoString, is_empty, arith, err, Result-cases, Option-cases, Bool-cases,
}
use nit.Policy.Pattern.{Doublestar}
use nit.Patch.Parse.{Gitdiff}
use nit.Store.Task.{not_found, StoreError}
use nit.Store.Memory.{TaskStore, by_request_id}
use nit.Store.Tables.{push_patch}
use nit.Auth.{Principal}
use nit.Blob.{IsBlobStore, digest_of}
use nit.Queue.{submit}
use nit.Server.{ServerState, Deps, record_audit}
use nit.Server.Patches.{store_patch}
use nit.Server.Report.{PushRequest, push_records}
use nit.Server.Push.{
  Authorized, authorize, push_spec, push_task, enqueue_push, store_and_enqueue, conclude_push,
  settle_push, admit_push, handle_push, check_push, is_not_found,
}
use nit.Server.Authorize.{IsResolved, IsEnforced, authorize-ok}
use nit.Server.Limit.{small-IsEnforced}
use nit.Server.Stored.{record_audit_keeps, store_patch_ok, store_patch-tasks}

empty_differs : {xs : GoString} → xs ≡ [] → is_empty xs ≢ false
empty_differs {xs} e h = absurd (let k = ap is_empty (sym e) ∙ h in cc)

not_found_of : (e : StoreError) → is_not_found e ≡ true → e ≡ not_found
not_found_of not_found h = refl
not_found_of _ h = absurd cc

module _ ⦃ds : Doublestar⦄ ⦃gd : Gitdiff⦄ {B : Type 0} (deps : Deps B) (p : Principal)
    (req : PushRequest) (now : ℕ) (hash : GoString → GoString)
    (content : GoString → B → Option GoString) where
  -- The stored patch is the one that was let through, and the task names it.
  pub record IsQueued (a : Authorized) (before : TaskStore) (s' : ServerState B) : Type 0 where
    pub accepted : a.result.rejected ≡ false
    pub to_be_done : req.dry_run ≡ false
    pub not_empty : a.result.patch ≢ []
    pub digest : GoString
    pub named : digest ≡ digest_of hash a.result.patch
    pub stored : content digest s'.blobs ≡ some a.result.patch
    pub payload : GoString
    pub marshalled : deps.marshal_push (push_spec deps p req a digest) ≡ some payload
    pub queued : s'.tasks ≡ (submit now (push_task deps p req now a payload) before).0

  pub record IsAdmitted (s s' : ServerState B) : Type 0 where
    pub fresh : by_request_id p.tenant req.request_id s.tasks ≡ err not_found
    pub what : Authorized
    pub resolved : IsResolved deps p req what s
    pub enforced : IsEnforced deps p req what s
    pub queues : IsQueued what s.tasks s'

  module _ (laws : IsBlobStore hash deps.blobs content) where
    enqueue_push-IsQueued :
        (a : Authorized) (digest : GoString) (s : ServerState B)
        → a.result.rejected ≡ false
        → req.dry_run ≡ false
        → a.result.patch ≢ []
        → digest ≡ digest_of hash a.result.patch
        → content digest s.blobs ≡ some a.result.patch
        → let s' = (enqueue_push deps p req now a digest s).0 in
          (s'.tasks ≡ s.tasks) ⊎ IsQueued a s.tasks s'
    unfolding enqueue_push
    enqueue_push-IsQueued a digest s accepted to_be_done not_empty named stored =
        elim (Option-cases (deps.marshal_push (push_spec deps p req a digest))) [
          | inl fails ↦ inl (rw (fails, enqueue_push) refl)
          | inr (payload, marshalled) ↦ inr (
              rw (marshalled, enqueue_push)
                (record {
                  accepted = accepted;
                  to_be_done = to_be_done;
                  not_empty = not_empty;
                  digest = digest;
                  named = named;
                  stored = stored;
                  payload = payload;
                  marshalled = marshalled;
                  queued = refl;
                }))
        ]

    store_and_enqueue-IsQueued :
        (a : Authorized) (s : ServerState B)
        → deps.max_patch_bytes + 1 < 2 ^ 63
        → a.result.rejected ≡ false
        → req.dry_run ≡ false
        → a.result.patch ≢ []
        → let s' = (store_and_enqueue deps p req now a s).0 in
          (s'.tasks ≡ s.tasks) ⊎ IsQueued a s.tasks s'
    unfolding store_and_enqueue
    store_and_enqueue-IsQueued a s small accepted to_be_done not_empty =
        let r = store_patch deps p.tenant now a.result.patch push_patch none s in
        let same =
          store_patch-tasks hash deps content laws p.tenant now a.result.patch push_patch none s in
        elim (Result-cases r.1) [
          | inl (fault, fails) ↦ inl (rw (fails, store_and_enqueue) same)
          | inr (blob, stored) ↦
              let (_, named, there) =
                store_patch_ok hash deps content laws p.tenant now a.result.patch push_patch none s
                  blob small stored in
              let done =
                enqueue_push-IsQueued a blob.digest r.0 accepted to_be_done not_empty named there in
              rw (stored, store_and_enqueue)
                (subst
                  (λ t.
                    ((enqueue_push deps p req now a blob.digest r.0).0.tasks ≡ t)
                    ⊎ IsQueued a t (enqueue_push deps p req now a blob.digest r.0).0)
                  same done)
        ]

    conclude_push_through :
        (a : Authorized) (s : ServerState B)
        → a.result.rejected ≡ false
        → req.dry_run ≡ false
        → is_empty a.result.patch ≡ false
        → conclude_push deps p req now a s ≡ store_and_enqueue deps p req now a s
    unfolding conclude_push
    conclude_push_through a s accepted to_be_done something = ground arith

    conclude_push-IsQueued :
        (a : Authorized) (s : ServerState B)
        → (a.result.rejected ≡ false → deps.max_patch_bytes + 1 < 2 ^ 63)
        → let s' = (conclude_push deps p req now a s).0 in
          (s'.tasks ≡ s.tasks) ⊎ IsQueued a s.tasks s'
    unfolding conclude_push
    conclude_push-IsQueued a s small = elim (Bool-cases a.result.rejected) [
      | inl rejected ↦ inl (rw (rejected, conclude_push) refl)
      | inr accepted ↦ elim (Bool-cases req.dry_run) [
        | inl dry ↦ inl (rw (accepted, dry, conclude_push) refl)
        | inr to_be_done ↦ elim (Bool-cases (is_empty a.result.patch)) [
          | inl nothing ↦ inl (rw (accepted, to_be_done, nothing, conclude_push) refl)
          | inr something ↦
              subst (λ r. (r.0.tasks ≡ s.tasks) ⊎ IsQueued a s.tasks r.0)
                (sym (conclude_push_through a s accepted to_be_done something))
                (store_and_enqueue-IsQueued a s (small accepted) accepted to_be_done
                  (λ nothing. empty_differs nothing something))
        ]
      ]
    ]

    settle_push-IsQueued :
        (a : Authorized) (s : ServerState B)
        → (a.result.rejected ≡ false → deps.max_patch_bytes + 1 < 2 ^ 63)
        → let s' = (settle_push deps p req now a s).0 in
          (s'.tasks ≡ s.tasks) ⊎ IsQueued a s.tasks s'
    unfolding settle_push
    settle_push-IsQueued a s small =
        let audited =
          record_audit deps.has_sink now a.repo.policy_repo_id
            (push_records now p a.repo req a.result) s in
        let (same, _, _, _) =
          record_audit_keeps deps.has_sink now a.repo.policy_repo_id
            (push_records now p a.repo req a.result) s in
        subst
          (λ t.
            ((conclude_push deps p req now a audited).0.tasks ≡ t)
            ⊎ IsQueued a t (conclude_push deps p req now a audited).0)
          same (conclude_push-IsQueued a audited small)

    admit_push-IsAdmitted :
        (s : ServerState B)
        → by_request_id p.tenant req.request_id s.tasks ≡ err not_found
        → let s' = (admit_push deps p req now s).0 in (s'.tasks ≡ s.tasks) ⊎ IsAdmitted s s'
    unfolding admit_push
    admit_push-IsAdmitted s fresh = elim (Result-cases (authorize deps p req s)) [
      | inl (e, refused) ↦ inl (rw (refused, admit_push) refl)
      | inr (a, passed) ↦
          let (resolved, enforced) = authorize-ok deps p req s a passed in
          rw (passed, admit_push)
            (elim (settle_push-IsQueued a s
              (λ accepted. small-IsEnforced deps p req a s (enforced accepted))) [
                | inl same ↦ inl same
                | inr queues ↦ inr (record {
                  fresh = fresh;
                  what = a;
                  resolved = resolved;
                  enforced = enforced queues.accepted;
                  queues = queues;
                })
              ])
    ]

    -- Every push that adds to the queue was admitted: the request was not seen before; the workspace
    -- belongs to the caller; the base is the commit that the sync point of the workspace has now, and
    -- that a token names which the server signed for this workspace, repository and branch; the
    -- uploaded patch was put to the policy in force, and what is left of it is exactly the sections
    -- for which the caller is authorized, in the default mode all of them; it is not empty and no dry
    -- run was asked for; and the task names, by its digest, what is left, which the blob store holds.
    -- In all other cases the queue stays as it is.
    pub handle_push-IsAdmitted :
        (s : ServerState B)
        → let s' = (handle_push deps p req now s).0 in (s'.tasks ≡ s.tasks) ⊎ IsAdmitted s s'
    unfolding handle_push
    handle_push-IsAdmitted s = elim (Result-cases (check_push req)) [
      | inl (e, refused) ↦ inl (rw (refused, handle_push) refl)
      | inr (_, passed) ↦ elim (Result-cases (by_request_id p.tenant req.request_id s.tasks)) [
        | inr (existing, seen) ↦ inl (rw (passed, seen, handle_push) refl)
        | inl (e, unseen) ↦ elim (Bool-cases (is_not_found e)) [
          | inl fresh ↦
              rw (passed, unseen, fresh, handle_push)
                (admit_push-IsAdmitted s (unseen ∙ ap err (not_found_of e fresh)))
          | inr broken ↦ inl (rw (passed, unseen, broken, handle_push) refl)
        ]
      ]
    ]
