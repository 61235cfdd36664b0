-- ===== src/Enforce/Pass.antt =====
-- pkg/enforce/enforce.go: one enforcement pass over a patch. `Push` and `Pull` differ in what they
-- require of a change; the loop over the sections is the same code twice in the source.
use mathlib.Core.List.{List, [], ◌∷◌, ◌++◌, map}
use nit.Base.{
  Bool, true, false, not, ◌&&◌, Option, none, some, GoString, ◌==◌, any, is_empty, nat_eq,
  if◌then◌else◌, Result, ok, err, refuse_if, ◌>>=◌, ◌>>◌,
}
use nit.Policy.Identity.{RepoId, Subject}
use nit.Policy.Pattern.{Doublestar}
use nit.Policy.Rule.{read}
use nit.Policy.Engine.{Engine, Request}
use nit.Policy.Rule.{other_action}
use nit.Policy.Engine.Cache.{CachingEngine, new_caching_engine, cached_evaluate}
use nit.Patch.Change.{Change, paths, display_path}
use nit.Patch.Parse.{ChangeSet}
use nit.Patch.Render.{render}
use nit.Enforce.Check.{Check, Verdict, Requirement, plain, requirements_for, denials}
use nit.Enforce.Guards.{Guards, guard_requirements}

-- A string type: `unset` is the empty string, `other_mode` any string that is no constant.
pub data Mode : Type 0 where
  reject strip unset : Mode
  other_mode : GoString → Mode

pub data EnforceError : Type 0 where
  no_engine no_repository no_subject : EnforceError
  unknown_mode : GoString → EnforceError

pub record Options : Type 0 where
  pub engine : Option Engine
  pub repo : RepoId
  pub ref : GoString
  pub subject : Subject
  pub guards : Guards

-- `validate`, with the engine that it finds not nil.
unfoldable pub validate : Options → Result EnforceError Engine
validate o = elim o.engine [
  | none ↦ err no_engine
  | some engine ↦ do
    refuse_if (o.repo == []) no_repository
    refuse_if (o.subject.user_id == []) no_subject
    ok engine
]

-- The path and the action are the zero values.
abbrev pub request : Options → Request
request o = record {
  repo = o.repo;
  ref = o.ref;
  subject = o.subject;
  path = [];
  action = other_action [];
}

pub record Outcome : Type 0 where
  pub mode : Mode
  pub verdicts : List Verdict
  pub kept : List Change
  pub dropped : List Change
  pub patch : GoString
  pub rejected : Bool
  pub policy_version : GoString

abbrev pub is_ok : Outcome → Bool
is_ok r = not r.rejected && not (is_empty r.patch)

-- The state of the inner loop: the cache, the version seen first, and the verdict so far.
pub record Progress : Type 0 where
  pub engine : CachingEngine
  pub version : GoString
  pub verdict : Verdict

unfoldable pub check_one : Requirement → Progress → Progress
check_one req p =
    let (engine', d) = cached_evaluate p.engine req.path req.action in
    record {
      engine = engine';
      version = if p.version == [] then d.policy_version else p.version;
      verdict = record {
        change = p.verdict.change;
        checks =
            p.verdict.checks
            ++ record { path = req.path; action = req.action; guard = req.guard; decision = d }
              ∷ [];
        allowed = if not d.allowed then false else p.verdict.allowed;
      };
    }

unfoldable pub check_all : List Requirement → Progress → Progress
check_all [] p = p
check_all (req ∷ reqs) p = check_all reqs (check_one req p)

-- The body of the outer loop.
unfoldable pub judge : List Requirement → Change → CachingEngine × Outcome → CachingEngine × Outcome
unfolding check_all
judge reqs change (engine, r) =
    let p = check_all reqs (record {
      engine = engine;
      version = r.policy_version;
      verdict = record { change = change; checks = []; allowed = true };
    }) in
    let r' = record r { verdicts = r.verdicts ++ p.verdict ∷ []; policy_version = p.version } in
    (
      p.engine,
      (if p.verdict.allowed
          then record r' { kept = r.kept ++ change ∷ [] }
          else record r' { dropped = r.dropped ++ change ∷ [] }),
    )

unfoldable pub judge_all :
    (Change → List Requirement) → List Change → CachingEngine × Outcome → CachingEngine × Outcome
judge_all needs [] s = s
judge_all needs (c ∷ cs) s = judge_all needs cs (judge (needs c) c s)

abbrev pub start : Mode → Outcome
start mode = record {
  mode = mode;
  verdicts = [];
  kept = [];
  dropped = [];
  patch = [];
  rejected = false;
  policy_version = [];
}

-- `allowed[c.Index]` of the map built from the kept changes.
abbrev pub is_kept : List Change → Change → Bool
is_kept kept c = any (λ k. nat_eq k.index c.index) kept

-- The patch of what was kept.
unfoldable pub finish : ChangeSet → Outcome → Outcome
finish set r = record r { patch = render set (is_kept r.kept) }

unfoldable pub resolve_mode : Mode → Result EnforceError Mode
resolve_mode reject = ok reject
resolve_mode strip = ok strip
resolve_mode unset = ok reject
resolve_mode (other_mode s) = err (unknown_mode s)

abbrev pub is_reject : Mode → Bool
is_reject reject = true
is_reject _ = false

-- The end of `Push`: the whole push is refused, or the rest is let through.
unfoldable pub settle : ChangeSet → Outcome → Outcome
unfolding finish
settle set r =
    if is_reject r.mode && not (is_empty r.dropped)
    then record r { rejected = true }
    else finish set r

-- What `Pull` asks of a change.
abbrev pub readings : Change → List Requirement
readings c = map (λ path. plain path read) (paths c)

unfoldable pub pull : ChangeSet → Options → Result EnforceError Outcome
unfolding validate judge_all
pull set opts = do
  engine ← validate opts
  let cache = new_caching_engine engine (request opts)
  ok (finish set (judge_all readings set.changes (cache, start strip)).1)

module _ ⦃ds : Doublestar⦄ where
  -- What `Push` asks of a change.
  abbrev pub needs_of : Guards → Change → List Requirement
  needs_of g c = requirements_for c ++ guard_requirements g c

  unfoldable pub push : ChangeSet → Options → Mode → Result EnforceError Outcome
  unfolding validate resolve_mode judge_all settle
  push set opts mode = do
    engine ← validate opts
    mode' ← resolve_mode mode
    let cache = new_caching_engine engine (request opts)
    ok (settle set (judge_all (needs_of opts.guards) set.changes (cache, start mode')).1)

unfoldable pub dropped_paths : Outcome → List GoString
dropped_paths r = map (display_path) r.dropped

-- Every failed check, across all sections.
unfoldable pub all_denials : List Verdict → List Check
all_denials [] = []
all_denials (v ∷ vs) = denials v ++ all_denials vs
