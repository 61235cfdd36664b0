-- ===== src/Server/EndToEnd.antt =====
-- A push request from its token to the queue.
use nit.Base.{ℕ, ◌≡◌, Option, GoString, ok}
use nit.Policy.Identity.{TenantId}
use nit.Policy.Pattern.{Doublestar}
use nit.Policy.Engine.{Policy}
use nit.Patch.Parse.{Gitdiff}
use nit.Store.Directory.{Directory}
use nit.Auth.{Principal, bearer_token}
use nit.Auth.Granted.{IsGranted}
use nit.Server.{ServerState, Deps}
use nit.Server.Report.{PushRequest}
use nit.Server.Admitted.{IsAdmitted}

module _ ⦃ds : Doublestar⦄ ⦃gd : Gitdiff⦄ {B : Type 0} (deps : Deps B)
    (hash_token : GoString → GoString) (sources : TenantId → Option Policy) (now : ℕ)
    (req : PushRequest) (hash : GoString → GoString)
    (content : GoString → B → Option GoString) where
  -- The caller behind a push that was queued.
  pub record IsEntitled (header : GoString) (d : Directory) (s s' : ServerState B) : Type 0 where
    pub token : GoString
    pub presented : bearer_token header ≡ ok token
    pub caller : Principal
    pub granted : IsGranted hash_token sources now token d caller
    pub admitted : IsAdmitted deps caller req now hash content s s'
