-- ===== src/Enforce/Direct.antt =====
-- What a pass answers, without its cache and its accumulators: every requirement of every section is
-- put to the engine.
use mathlib.Core.List.{List, [], ◌∷◌, ◌++◌, map, append_assoc, append-nil}
use mathlib.Core.Path.{ap₂}
use nit.Base.{
  ◌≡◌, refl, sym, ap, ◌∙◌, Bool, true, false, not, ◌&&◌, all, keep, keep-append, Bool-cases,
  if◌then◌else◌, inl, inr,
}
use nit.Policy.Engine.{Engine, Request, ask}
use nit.Policy.Engine.Cache.{
  CachingEngine, IsFaithful, cached_evaluate, cached_evaluate-decision, cached_evaluate-engine,
  cached_evaluate-base, cached_evaluate-IsFaithful,
}
use nit.Patch.Change.{Change}
use nit.Enforce.Check.{Check, Verdict, Requirement}
use nit.Enforce.Pass.{Outcome, Progress, check_one, check_all, judge, judge_all}

module _ (engine : Engine) (base : Request) where
  abbrev pub is_granted : Requirement → Bool
  is_granted q = (engine (ask base q.path q.action)).allowed

  abbrev pub direct_check : Requirement → Check
  direct_check q = record {
    path = q.path;
    action = q.action;
    guard = q.guard;
    decision = engine (ask base q.path q.action);
  }

  abbrev pub is_authorized : (Change → List Requirement) → Change → Bool
  is_authorized needs c = all is_granted (needs c)

  abbrev pub direct_verdict : (Change → List Requirement) → Change → Verdict
  direct_verdict needs c = record {
    change = c;
    checks = map direct_check (needs c);
    allowed = is_authorized needs c;
  }

  -- The cache wraps this engine at this request, and holds its answers.
  pub record Wraps (c : CachingEngine) : Type 0 where
    pub engine_same : c.engine ≡ engine
    pub base_same : c.base ≡ base
    pub faithful : IsFaithful c

  module _ (q : Requirement) (c : CachingEngine) (w : Wraps c) where
    Wraps-cached_evaluate : Wraps (cached_evaluate c q.path q.action).0
    Wraps-cached_evaluate = record {
      engine_same = cached_evaluate-engine c q.path q.action ∙ w.engine_same;
      base_same = cached_evaluate-base c q.path q.action ∙ w.base_same;
      faithful = cached_evaluate-IsFaithful c q.path q.action w.faithful;
    }

    decision_of_Wraps : (cached_evaluate c q.path q.action).1 ≡ engine (ask base q.path q.action)
    decision_of_Wraps =
        rw (cached_evaluate-decision c q.path q.action w.faithful, w.engine_same, w.base_same)

  -- The verdict `v` after more requirements.
  abbrev extend : Verdict → List Requirement → Verdict
  extend v reqs = record {
    change = v.change;
    checks = v.checks ++ map direct_check reqs;
    allowed = v.allowed && all is_granted reqs;
  }

  -- Two verdicts on one change with the same checks and the same answer.
  verdict_eq :
      (v : Verdict) {cs cs' : List Check} {a a' : Bool}
      → cs ≡ cs'
      → a ≡ a'
      → ◌≡◌ {A = Verdict}
          (record { change = v.change; checks = cs; allowed = a })
          (record { change = v.change; checks = cs'; allowed = a' })
  verdict_eq v p q = ap₂ (λ c a. record { change = v.change; checks = c; allowed = a }) p q

  check_one-verdict :
      (q : Requirement) (p : Progress)
      → Wraps p.engine
      → (check_one q p).verdict ≡ extend p.verdict (q ∷ [])
  unfolding check_one
  check_one-verdict q p w =
      rw (decision_of_Wraps q p.engine w) (verdict_eq p.verdict refl (only_if _ _))
    where
      only_if : (a g : Bool) → (if not g then false else a) ≡ (a && (g && true))
      only_if true true = refl
      only_if true false = refl
      only_if false true = refl
      only_if false false = refl

  check_one-Wraps : (q : Requirement) (p : Progress) → Wraps p.engine → Wraps (check_one q p).engine
  unfolding check_one
  check_one-Wraps q p w = Wraps-cached_evaluate q p.engine w

  pub check_all-verdict :
      (reqs : List Requirement) (p : Progress)
      → Wraps p.engine
      → Wraps (check_all reqs p).engine × ((check_all reqs p).verdict ≡ extend p.verdict reqs)
  unfolding check_all
  check_all-verdict [] p w =
      (w, verdict_eq p.verdict (sym (append-nil _)) (and_true p.verdict.allowed))
    where
      and_true : (a : Bool) → a ≡ (a && true)
      and_true true = refl
      and_true false = refl
  check_all-verdict (q ∷ reqs) p w =
      let (w', v) = check_all-verdict reqs (check_one q p) (check_one-Wraps q p w) in
      (
        w',
        v
            ∙ ap (λ u. extend u reqs) (check_one-verdict q p w)
            ∙ verdict_eq p.verdict (append_assoc p.verdict.checks _ _)
                (and_assoc p.verdict.allowed (is_granted q) (all is_granted reqs)),
      )
    where
      and_assoc : (a g r : Bool) → ((a && (g && true)) && r) ≡ (a && (g && r))
      and_assoc true true r = refl
      and_assoc true false r = refl
      and_assoc false g r = refl

  module _ (needs : Change → List Requirement) where
    -- The outcome `r` after the sections `cs`, but for the version.
    pub record IsAfter (r : Outcome) (cs : List Change) (r' : Outcome) : Type 0 where
      pub verdicts : r'.verdicts ≡ r.verdicts ++ map (direct_verdict needs) cs
      pub kept : r'.kept ≡ r.kept ++ keep (is_authorized needs) cs
      pub dropped : r'.dropped ≡ r.dropped ++ keep (λ c. not (is_authorized needs c)) cs
      pub mode : r'.mode ≡ r.mode
      pub patch : r'.patch ≡ r.patch
      pub rejected : r'.rejected ≡ r.rejected

    judge-IsAfter :
        (c : Change) (s : CachingEngine × Outcome)
        → Wraps s.0
        → Wraps (judge (needs c) c s).0 × IsAfter s.1 (c ∷ []) (judge (needs c) c s).1
    unfolding judge
    judge-IsAfter c (cache, r) w =
        let fresh : Verdict = record { change = c; checks = []; allowed = true } in
        let (w', v) =
          check_all-verdict (needs c)
            (record { engine = cache; version = r.policy_version; verdict = fresh }) w in
        (
          w',
          rw v (elim (Bool-cases (is_authorized needs c)) [
            | inl yes_all ↦ rw yes_all (record {
              verdicts = rw yes_all;
              kept = rw yes_all;
              dropped = rw yes_all (sym (append-nil r.dropped));
              mode = refl;
              patch = refl;
              rejected = refl;
            })
            | inr not_all ↦ rw not_all (record {
              verdicts = rw not_all;
              kept = rw not_all (sym (append-nil r.kept));
              dropped = rw not_all;
              mode = refl;
              patch = refl;
              rejected = refl;
            })
          ]),
        )

    pub judge_all-IsAfter :
        (cs : List Change) (s : CachingEngine × Outcome)
        → Wraps s.0
        → IsAfter s.1 cs (judge_all needs cs s).1
    unfolding judge_all
    judge_all-IsAfter [] s w = record {
      verdicts = sym (append-nil _);
      kept = sym (append-nil _);
      dropped = sym (append-nil _);
      mode = refl;
      patch = refl;
      rejected = refl;
    }
    judge_all-IsAfter (c ∷ cs) s w =
        let (w', one) = judge-IsAfter c s w in
        let later = judge_all-IsAfter cs (judge (needs c) c s) w' in
        record {
          verdicts =
              later.verdicts
              ∙ ap (λ l. l ++ map (direct_verdict needs) cs) one.verdicts
              ∙ append_assoc s.1.verdicts _ _;
          kept = later.kept ∙ keep_later (is_authorized needs) s.1.kept _ one.kept;
          dropped =
              later.dropped
              ∙ keep_later (λ c'. not (is_authorized needs c')) s.1.dropped _ one.dropped;
          mode = later.mode ∙ one.mode;
          patch = later.patch ∙ one.patch;
          rejected = later.rejected ∙ one.rejected;
        }
      where
        keep_later :
            (p : Change → Bool) (old now : List Change)
            → now ≡ old ++ keep p (c ∷ [])
            → now ++ keep p cs ≡ old ++ keep p (c ∷ cs)
        keep_later p old now e =
            ap (λ l. l ++ keep p cs) e
            ∙ append_assoc old _ _
            ∙ ap (λ l. old ++ l) (sym (keep-append p (c ∷ []) cs))
