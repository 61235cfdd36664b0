-- ===== src/Queue/Submission.antt =====
-- internal/queue/queue.go, `Submit`: a repeated request gets its task back.
use nit.Base.{ℕ, ◌≡◌, true, false, is_empty, ok}
use nit.Store.Task.{Task}
use nit.Store.Memory.{TaskStore, is_request}
use nit.Store.Queue.{create-duplicate}
use nit.Queue.{submit, prepared}

-- A request that was submitted, and that named itself by a request ID that is not empty, is
-- submitted again: nothing changes, and the answer is no error but a stored task of the request,
-- and that it existed.
pub submit-submit :
    (clock later : ℕ) (t u : Task) (s : TaskStore)
    → is_empty t.request_id ≡ false
    → u.tenant_id ≡ t.tenant_id
    → u.request_id ≡ t.request_id
    → let after = (submit clock t s).0 in
      (existing : Task) × (is_request t.tenant_id t.request_id existing ≡ true)
      × (submit later u after ≡ (after, ok (existing, true)))
unfolding submit
submit-submit clock later t u s named tenant request =
    let (existing, answers, same) =
      create-duplicate clock later (prepared clock t) (prepared later u) s named tenant request in
    (existing, answers, rw same)
