-- ===== src/Server/Served.antt =====
-- Who gets which patch.
use nit.Base.{
  ◌≡◌, sym, ap, ◌∙◌, Bool, true, false, not, Option, some, GoString, ◌==◌, is_empty, arith, Result,
  ok, ok-injective, >>=-ok_cases, refuse_if,
}
use nit.Store.Task.{Task, task_pull, succeeded, state_eq}
use nit.Store.Memory.{TaskStore, by_id}
use nit.Auth.{Principal}
use nit.Blob.{BlobError}
use nit.Server.{ServerState, Deps, ApiError, bad_request}
use nit.Server.Resolve.{or_absent}
use nit.Server.Authorize.{or_absent_ok, refused_ne, refused_not}
use nit.Server.Tasks.{owned_task, unknown_task, patch_digest_of, handle_task_patch, or_expired}

owned_task_ok :
    (p : Principal) (id : GoString) (tasks : TaskStore) (t : Task)
    → owned_task p id tasks ≡ ok t
    → (by_id id tasks ≡ ok t) × (t.user_id ≡ p.user.id)
unfolding owned_task
owned_task_ok p id tasks t e = >>=-ok_cases (refuse_if (is_empty id) bad_request) _ e λ _ _ e1.
    >>=-ok_cases (or_absent unknown_task (by_id id tasks)) _ e1 λ u found e2.
      >>=-ok_cases (refuse_if (not (u.user_id == p.user.id)) unknown_task) _ e2 λ _ own e3.
        let same = ok-injective e3 in
        (
          or_absent_ok unknown_task (by_id id tasks) u found ∙ ap ok same,
          ap Task.user_id (sym same) ∙ refused_ne _ _ _ own,
        )

patch_digest_of_ok :
    (unmarshal : GoString → Option (Option GoString)) (t : Task) (digest : GoString)
    → patch_digest_of unmarshal t ≡ ok digest
    → is_empty digest ≡ false
    → (t.kind ≡ task_pull) × (unmarshal t.outcome ≡ some (some digest))
unfolding patch_digest_of
patch_digest_of_ok unmarshal t digest e named = ground arith

or_expired_ok :
    (r : Result BlobError GoString) (content : GoString)
    → or_expired r ≡ ok content
    → r ≡ ok content
or_expired_ok r content e = ground arith

-- Bytes that are served for a task come from a stored task of that ID that belongs to the caller,
-- is a pull and has succeeded; they are what the blob store has under the digest in its result.
pub handle_task_patch-IsOwned :
    {B : Type 0} (deps : Deps B) (unmarshal : GoString → Option (Option GoString)) (p : Principal)
    (id : GoString) (s : ServerState B) (content : GoString)
    → handle_task_patch deps unmarshal p id s ≡ ok content
    → (t : Task) × (digest : GoString) × (by_id id s.tasks ≡ ok t)
      × (t.user_id ≡ p.user.id)
      × (t.kind ≡ task_pull)
      × (state_eq t.state succeeded ≡ true)
      × (unmarshal t.outcome ≡ some (some digest))
      × (deps.blobs.get digest s.blobs ≡ ok content)
unfolding handle_task_patch
handle_task_patch-IsOwned deps unmarshal p id s content e =
    >>=-ok_cases (owned_task p id s.tasks) _ e λ t mine e1.
      >>=-ok_cases (refuse_if (not (state_eq t.state succeeded)) _) _ e1 λ _ done e2.
        >>=-ok_cases (patch_digest_of unmarshal t) _ e2 λ digest names e3.
          >>=-ok_cases (refuse_if (is_empty digest) _) _ e3 λ _ some_patch e4.
            let (there, owned) = owned_task_ok p id s.tasks t mine in
            let (pull, decoded) =
              patch_digest_of_ok unmarshal t digest names
                (not_refused (is_empty digest) _ some_patch) in
            (
              t,
              digest,
              there,
              owned,
              pull,
              refused_not _ _ done,
              decoded,
              or_expired_ok (deps.blobs.get digest s.blobs) content e4,
            )
  where
    not_refused : (b : Bool) (f : ApiError) {u : Unit {0}} → refuse_if b f ≡ ok u → b ≡ false
    not_refused b f h = ground arith
