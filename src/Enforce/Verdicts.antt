-- ===== src/Enforce/Verdicts.antt =====
-- The sections that a pass keeps, by their position in the patch.
use mathlib.Core.List.{List, [], ◌∷◌, map}
use nit.Base.{
  ℕ, suc, ◌<◌, ◌≡◌, ◌≢◌, refl, Bool, false, not, some, keep, keep_congr, All, All-zip, arith, ok,
}
use nit.Policy.Engine.{Engine}
use nit.Policy.Engine.Cache.{new_caching_engine, new_caching_engine-IsFaithful}
use nit.Patch.Change.{Change}
use nit.Patch.Parse.{ChangeSet}
use nit.Patch.Render.{render}
use nit.Patch.RoundTrip.{IsNumberedFrom}
use nit.Enforce.Check.{Requirement}
use nit.Enforce.Pass.{Mode, Options, Outcome, request, start, validate, judge_all, is_kept}
use nit.Enforce.Direct.{direct_verdict, is_authorized, IsAfter, judge_all-IsAfter}

later_index : (i j : ℕ) (cs : List Change) → i < j → IsNumberedFrom j cs → All (λ c. i < c.index) cs
later_index i j [] lt n = tt
later_index i j (c ∷ cs) lt (here, n) = (omega arith, later_index i (suc j) cs (omega arith) n)

not_kept :
    (p : Change → Bool) (c : Change) (cs : List Change)
    → All (λ d. c.index < d.index) cs
    → is_kept (keep p cs) c ≡ false
not_kept p c [] h = refl
not_kept p c (d ∷ cs) (lt, h) = ground (arith, not_kept p c cs h)

-- The map from positions finds just the kept sections, since the positions are distinct.
is_kept_of_numbered :
    (p : Change → Bool) (i : ℕ) (cs : List Change)
    → IsNumberedFrom i cs
    → All (λ c. is_kept (keep p cs) c ≡ p c) cs
is_kept_of_numbered p i [] n = tt
is_kept_of_numbered p i (c ∷ cs) (here, n) =
    let later = later_index c.index (suc i) cs (omega arith) n in
    (
      ground (arith, not_kept p c cs later),
      All-zip (λ d. c.index < d.index) (λ d. is_kept (keep p cs) d ≡ p d)
          (λ d. is_kept (keep p (c ∷ cs)) d ≡ p d) (λ d lt h. ground arith) cs later
          (is_kept_of_numbered p (suc i) cs n),
    )

pub render-is_kept :
    (p : Change → Bool) (s : ChangeSet)
    → IsNumberedFrom 0 s.changes
    → render s (is_kept (keep p s.changes)) ≡ render s p
unfolding render
render-is_kept p s n = rw (keep_congr _ p s.changes (is_kept_of_numbered p 0 s.changes n))

-- What a pass over a patch answers, section by section: each verdict has every check that the change
-- needs, in order, answered by the engine itself, and allows the change if they all passed. The kept
-- and the dropped changes are those with either verdict, in order.
pub record IsPassOf (needs : Change → List Requirement) (opts : Options) (set : ChangeSet)
    (r : Outcome) : Type 0 where
  pub engine : Engine
  pub configured : opts.engine ≡ some engine
  pub verdicts : r.verdicts ≡ map (direct_verdict engine (request opts) needs) set.changes
  pub kept : r.kept ≡ keep (is_authorized engine (request opts) needs) set.changes
  pub dropped :
      r.dropped ≡ keep (λ c. not (is_authorized engine (request opts) needs c)) set.changes

pub validate-ok :
    (opts : Options) (engine : Engine)
    → validate opts ≡ ok engine
    → (opts.engine ≡ some engine) × (opts.repo ≢ []) × (opts.subject.user_id ≢ [])
unfolding validate
validate-ok opts engine e = ground arith

module _ (needs : Change → List Requirement) (opts : Options) (set : ChangeSet) (engine : Engine)
    (mode : Mode) where
  abbrev pub judged : Outcome
  judged = (judge_all needs set.changes (new_caching_engine engine (request opts), start mode)).1

  pub judged-IsAfter : IsAfter engine (request opts) needs (start mode) set.changes judged
  unfolding new_caching_engine
  judged-IsAfter =
      judge_all-IsAfter engine (request opts) needs set.changes
        (new_caching_engine engine (request opts), start mode)
        (record {
          engine_same = refl;
          base_same = refl;
          faithful = new_caching_engine-IsFaithful engine (request opts);
        })
