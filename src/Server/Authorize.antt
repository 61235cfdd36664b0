-- ===== src/Server/Authorize.antt =====
-- What a push that passes its checks stands for: whose it is, on what base, and what it carries.
use nit.Base.{
  ◌≡◌, ◌⊎◌, inl, inr, refl, sym, ap, ◌∙◌, Bool, true, false, not, some, GoString, text, is_empty,
  All, arith, Result, ok, err, >>=-eq-ok, >>=-ok_cases, ok-injective, str_discrete, ◌==◌, refuse_if,
}
use nit.Policy.Pattern.{Doublestar}
use nit.Policy.Engine.{Policy, evaluate}
use nit.Patch.Parse.{Gitdiff, ChangeSet, parse}
use nit.Patch.Sections.{ParseError}
use nit.Patch.RoundTrip.{parse-IsParseOf}
use nit.Patch.Change.{Change}
use nit.Patch.Render.{render}
use nit.Enforce.Pass.{reject, strip, push, request, needs_of}
use nit.Enforce.Direct.{is_authorized}
use nit.Enforce.Through.{push_not_rejected}
use nit.Store.Task.{StoreError, not_found}
use nit.Store.SyncPoints.{SyncPoint, get_sync_point}
use nit.Store.Tables.{Workspace, workspace_by_id, repository_by_policy_id}
use nit.Auth.{Principal}
use nit.Tokens.{TokenPayload, TokenError, verify, matches}
use nit.Tokens.Verify.{IsSignedBy, verify-IsSignedBy}
use nit.Server.{ServerState, Deps, ApiError, bad_request, or_internal}
use nit.Server.Resolve.{
  or_absent, or_invalid, unknown_workspace, unknown_sync_point, stale_sync_point,
  unknown_repository, resolve_repository, resolve_workspace, resolve_base_commit, policy_for,
}
use nit.Server.Patches.{load_patch}
use nit.Server.Report.{PushRequest}
use nit.Server.Push.{Authorized, push_options, authorize, mode_of, or_unparsed}

pub or_absent_ok :
    {A : Type 0} (absent : ApiError) (r : Result StoreError A) (a : A)
    → or_absent absent r ≡ ok a
    → r ≡ ok a
or_absent_ok absent (err not_found) a e = absurd cc
or_absent_ok absent (err _) a e = absurd cc
or_absent_ok absent (ok b) a e = ap ok (ok-injective e)

or_invalid_ok :
    (r : Result TokenError TokenPayload) (claim : TokenPayload)
    → or_invalid r ≡ ok claim
    → r ≡ ok claim
or_invalid_ok (err e) claim h = absurd cc
or_invalid_ok (ok c) claim h = ap ok (ok-injective h)

or_internal_ok : {E A : Type 0} (r : Result E A) (a : A) → or_internal r ≡ ok a → r ≡ ok a
or_internal_ok (err e) a h = absurd cc
or_internal_ok (ok b) a h = ap ok (ok-injective h)

or_unparsed_ok :
    (r : Result ParseError ChangeSet) (set : ChangeSet) → or_unparsed r ≡ ok set → r ≡ ok set
or_unparsed_ok (err e) set h = absurd cc
or_unparsed_ok (ok b) set h = ap ok (ok-injective h)

mode_of_cases : (req : PushRequest) → (mode_of req ≡ reject) ⊎ (mode_of req ≡ strip)
mode_of_cases req = ground arith

strip_asked : (req : PushRequest) → mode_of req ≡ strip → req.mode ≡ text "strip"
strip_asked req e = ground arith

pub refused_not : (b : Bool) (e : ApiError) {u : Unit {0}} → refuse_if (not b) e ≡ ok u → b ≡ true
refused_not b e h = ground arith

pub refused_ne :
    (x y : GoString) (e : ApiError) {u : Unit {0}} → refuse_if (not (x == y)) e ≡ ok u → x ≡ y
refused_ne x y e h = ground arith

module _ ⦃ds : Doublestar⦄ ⦃gd : Gitdiff⦄ {B : Type 0} (deps : Deps B) (p : Principal)
    (req : PushRequest) where
  -- The workspace is the caller's; the base is the one that its sync point has now, and that a token
  -- signed for this workspace, repository and branch names.
  pub record IsResolved (a : Authorized) (s : ServerState B) : Type 0 where
    pub repository : repository_by_policy_id p.tenant req.repository s.tables ≡ ok a.repo
    pub workspace : workspace_by_id req.workspace s.tables ≡ ok a.workspace
    pub owned : a.workspace.user_id ≡ p.user.id
    pub point : SyncPoint
    pub current : get_sync_point (a.workspace.id, (a.repo.id, req.branch)) s.sync_points ≡ ok point
    pub base : a.base_commit ≡ point.upstream_commit
    pub claim : TokenPayload
    pub signed : IsSignedBy deps.codec deps.signer req.base_sync claim
    pub meant : matches claim a.workspace.id a.repo.id req.branch ≡ true
    pub agreed : claim.upstream_commit ≡ point.upstream_commit

  -- The sections that the user may change.
  abbrev pub may_land : Authorized → Change → Bool
  may_land a c =
      is_authorized (evaluate a.policy) (request (push_options deps p req a.repo a.policy))
        (needs_of deps.guards) c

  -- The policy is the one in force, and what is left is what it allows: in the default mode this is
  -- everything.
  pub record IsEnforced (a : Authorized) (s : ServerState B) : Type 0 where
    pub in_force : deps.policies p.tenant ≡ some a.policy
    pub raw : GoString
    pub loaded : load_patch deps req.patch s.blobs ≡ ok raw
    pub parsed : parse raw ≡ ok a.set
    pub enforced : a.result.patch ≡ render a.set (may_land a)
    pub whole : (req.mode ≡ text "strip") ⊎ All (λ c. may_land a c ≡ true) a.set.changes

  resolve_workspace_ok :
      (s : ServerState B) (w : Workspace)
      → resolve_workspace p.user.id req.workspace s.tables ≡ ok w
      → (workspace_by_id req.workspace s.tables ≡ ok w) × (w.user_id ≡ p.user.id)
  unfolding resolve_workspace str_discrete
  resolve_workspace_ok s w e =
      let (_, _, e1) = >>=-eq-ok (refuse_if (is_empty req.workspace) bad_request) _ e in
      let (v, found, e2) =
        >>=-eq-ok (or_absent unknown_workspace (workspace_by_id req.workspace s.tables)) _ e1 in
      let (_, own, e3) =
        >>=-eq-ok (refuse_if (not (v.user_id == p.user.id)) unknown_workspace) _ e2 in
      let same = ok-injective e3 in
      let there = or_absent_ok unknown_workspace (workspace_by_id req.workspace s.tables) v found in
      (there ∙ ap ok same, ap Workspace.user_id (sym same) ∙ refused_ne _ _ _ own)

  resolve_base_commit_ok :
      (s : ServerState B) (workspace repository commit : GoString)
      → resolve_base_commit deps.codec deps.signer req.base_sync workspace repository req.branch
          s.sync_points
        ≡ ok commit
      → (point : SyncPoint) × (claim : TokenPayload) × (get_sync_point
            (workspace, (repository, req.branch))
            s.sync_points
          ≡ ok point)
        × (verify deps.codec deps.signer req.base_sync ≡ ok claim)
        × (matches claim workspace repository req.branch ≡ true)
        × (claim.upstream_commit ≡ point.upstream_commit)
        × (commit ≡ point.upstream_commit)
  unfolding resolve_base_commit
  resolve_base_commit_ok s workspace repository commit e =
      let (point, found, e1) =
        >>=-eq-ok
          (or_absent unknown_sync_point
            (get_sync_point (workspace, (repository, req.branch)) s.sync_points))
          _ e in
      let (_, _, e2) = >>=-eq-ok (refuse_if (is_empty req.base_sync) stale_sync_point) _ e1 in
      let (claim, valid, e3) =
        >>=-eq-ok (or_invalid (verify deps.codec deps.signer req.base_sync)) _ e2 in
      let (_, meant, e4) =
        >>=-eq-ok (refuse_if (not (matches claim workspace repository req.branch)) bad_request) _
          e3 in
      let (_, agreed, e5) =
        >>=-eq-ok
          (refuse_if (not (claim.upstream_commit == point.upstream_commit)) stale_sync_point) _
          e4 in
      (
        point,
        claim,
        or_absent_ok unknown_sync_point _ point found,
        or_invalid_ok _ claim valid,
        refused_not _ _ meant,
        refused_ne _ _ _ agreed,
        sym (ok-injective e5),
      )

  IsResolved-by :
      (s : ServerState B) (a : Authorized)
      → resolve_repository p.tenant req.repository s.tables ≡ ok a.repo
      → resolve_workspace p.user.id req.workspace s.tables ≡ ok a.workspace
      → resolve_base_commit deps.codec deps.signer req.base_sync a.workspace.id a.repo.id req.branch
          s.sync_points
        ≡ ok a.base_commit
      → IsResolved a s
  unfolding resolve_repository
  IsResolved-by s a named mine based =
      >>=-ok_cases (refuse_if (is_empty req.repository) bad_request) _ named λ _ _ named'.
        let (there, owned) = resolve_workspace_ok s a.workspace mine in
        let (point, claim, current, valid, meant, agreed, base) =
          resolve_base_commit_ok s a.workspace.id a.repo.id a.base_commit based in
        record {
          repository = or_absent_ok unknown_repository _ a.repo named';
          workspace = there;
          owned = owned;
          point = point;
          current = current;
          base = base;
          claim = claim;
          signed = verify-IsSignedBy deps.codec deps.signer req.base_sync claim valid;
          meant = meant;
          agreed = agreed;
        }

  IsEnforced-by_push :
      (s : ServerState B) (a : Authorized) (raw : GoString)
      → deps.policies p.tenant ≡ some a.policy
      → load_patch deps req.patch s.blobs ≡ ok raw
      → parse raw ≡ ok a.set
      → push a.set (push_options deps p req a.repo a.policy) (mode_of req) ≡ ok a.result
      → a.result.rejected ≡ false
      → IsEnforced a s
  IsEnforced-by_push s a raw in_force loaded parsed ran through =
      let numbered = (parse-IsParseOf raw a.set parsed).numbered in
      let (patch, every) =
        push_not_rejected a.set (push_options deps p req a.repo a.policy) (evaluate a.policy)
          (mode_of req) a.result numbered refl (mode_of_cases req) ran through in
      record {
        in_force = in_force;
        raw = raw;
        loaded = loaded;
        parsed = parsed;
        enforced = patch;
        whole = elim (mode_of_cases req) [
          | inl by_default ↦ inr (every by_default)
          | inr stripped ↦ inl (strip_asked req stripped)
        ];
      }

  policy_for_ok :
      (policy : Policy)
      → policy_for deps.policies p.tenant ≡ ok policy
      → deps.policies p.tenant ≡ some policy
  unfolding policy_for
  policy_for_ok policy e = ground arith

  pub authorize-ok :
      (s : ServerState B) (a : Authorized)
      → authorize deps p req s ≡ ok a
      → IsResolved a s × (a.result.rejected ≡ false → IsEnforced a s)
  unfolding authorize
  authorize-ok s a e =
      >>=-ok_cases (resolve_repository p.tenant req.repository s.tables) _ e λ repo named e1.
        >>=-ok_cases (resolve_workspace p.user.id req.workspace s.tables) _ e1 λ workspace mine e2.
          >>=-ok_cases
            (resolve_base_commit deps.codec deps.signer req.base_sync workspace.id repo.id
              req.branch s.sync_points)
            _ e2
            λ commit based e3.
              >>=-ok_cases (load_patch deps req.patch s.blobs) _ e3 λ raw loaded e4.
                >>=-ok_cases (or_unparsed (parse raw)) _ e4 λ set parsed e5.
                  >>=-ok_cases (policy_for deps.policies p.tenant) _ e5 λ policy known e6.
                    >>=-ok_cases
                      (or_internal (push set (push_options deps p req repo policy) (mode_of req))) _
                      e6
                      λ result passed e7. rw (← ok-injective e7) (
                        IsResolved-by s _ named mine based,
                        IsEnforced-by_push s _ raw (policy_for_ok policy known) loaded
                            (or_unparsed_ok _ set parsed) (or_internal_ok _ result passed),
                      )
