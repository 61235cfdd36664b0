-- ===== src/Policy/Engine/Explain.antt =====
-- Which rule a decision names: among the rules of its effect that apply, one of whose found pattern
-- no other is more specific.
use mathlib.Core.List.{List, [], ◌∷◌, Memᴰ}
use mathlib.Core.List.Memᴰ.{head, tail}
use mathlib.Core.Path.{subst}
use mathlib.Core.Option.{some-injective}
use nit.Base.{
  ◌≡◌, refl, sym, ap, ◌∙◌, ltb, has_key, str_discrete, if◌then◌else◌, ◌↔◌, ◌⊎◌, inl, inr, Bool,
  true, false, none, some, arith, Bool-cases, Option-cases, ◌≤◌,
}
use nit.Policy.Pattern.{Doublestar, Pattern, specificity}
use nit.Policy.Rule.{Rule, is_deny}
use nit.Policy.Decision.{Decision, Reason, allowed_by_rule, denied_by_rule}
use nit.Policy.Engine.{
  Policy, Request, Best, better, consider, scan, conclude, applying, rules_of, is_disabled,
  evaluate,
}

module _ ⦃ds : Doublestar⦄ (req : Request) (denying : Bool) where
  -- The rule applies by this pattern, and its effect is on this side.
  abbrev pub IsCandidate : Rule → Pattern → Type 0
  IsCandidate r pat = (applying r req ≡ some pat) × (is_deny r.effect ≡ denying)

  abbrev NoMoreSpecific : Pattern → Rule → Type 0
  NoMoreSpecific pat r = (pat' : Pattern) → IsCandidate r pat' → specificity pat' ≤ specificity pat

  -- Among the rules of `S`, the candidate that a decision names.
  pub record IsMostSpecific (S : Rule → Type 0) (r : Rule) (pat : Pattern) : Type 0 where
    pub listed : S r
    pub candidate : IsCandidate r pat
    pub longest : (r' : Rule) → S r' → NoMoreSpecific pat r'

  -- What one side of the loop's state says of the rules seen so far.
  abbrev pub Tracks : (Rule → Type 0) → Best → Type 0
  Tracks S none = (r : Rule) → S r → (pat : Pattern) → ¬ IsCandidate r pat
  Tracks S (some (r, pat)) = IsMostSpecific S r pat

  Tracks-congr :
      (S T : Rule → Type 0) (best : Best) → ((r : Rule) → S r ↔ T r) → Tracks S best → Tracks T best
  Tracks-congr S T none same t = λ r m. t r ((same r).1 m)
  Tracks-congr S T (some (r, pat)) same t = record {
    listed = (same r).0 t.listed;
    candidate = t.candidate;
    longest = λ r' m. t.longest r' ((same r').1 m);
  }

  module _ (S : Rule → Type 0) (r : Rule) where
    abbrev Also : Rule → Type 0
    Also r' = (r' ≡ r) ⊎ S r'

    Tracks-skip :
        (best : Best) → ((pat : Pattern) → ¬ IsCandidate r pat) → Tracks S best → Tracks Also best
    Tracks-skip none not_one t = none_yet
      where
        none_yet : (r' : Rule) → Also r' → (pat : Pattern) → ¬ IsCandidate r' pat
        none_yet r' (inl e) pat c = not_one pat (subst (λ x. IsCandidate x pat) e c)
        none_yet r' (inr m) pat c = t r' m pat c
    Tracks-skip (some (q, pat')) not_one t = record {
      listed = inr t.listed;
      candidate = t.candidate;
      longest = longest;
    }
      where
        longest : (r' : Rule) → Also r' → NoMoreSpecific pat' r'
        longest r' (inl e) pat c = absurd (not_one pat (subst (λ x. IsCandidate x pat) e c))
        longest r' (inr m) pat c = t.longest r' m pat c

    -- The pattern of a candidate is determined.
    same_specificity :
        (r' : Rule) (pat pat' : Pattern)
        → r' ≡ r
        → IsCandidate r pat
        → IsCandidate r' pat'
        → specificity pat' ≤ specificity pat
    same_specificity r' pat pat' e c c' =
        let found : some pat' ≡ some pat = sym c'.0 ∙ ap (λ x. applying x req) e ∙ c.0 in
        rw (some-injective pat' pat found) (omega arith)

    Tracks-better :
        (pat : Pattern) (best : Best)
        → IsCandidate r pat
        → Tracks S best
        → Tracks Also (better best r pat)
    unfolding better
    Tracks-better pat none c t = record { listed = inl refl; candidate = c; longest = longest }
      where
        longest : (r' : Rule) → Also r' → NoMoreSpecific pat r'
        longest r' (inl e) pat' c' = same_specificity r' pat pat' e c c'
        longest r' (inr m) pat' c' = absurd (t r' m pat' c')
    Tracks-better pat (some (q, old)) c t =
        elim (Bool-cases (ltb (specificity old) (specificity pat))) [
          | inl longer ↦
              rw longer (record { listed = inl refl; candidate = c; longest = longest_new longer })
          | inr not_longer ↦ rw not_longer (record {
            listed = inr t.listed;
            candidate = t.candidate;
            longest = longest_old not_longer;
          })
        ]
      where
        longest_new :
            ltb (specificity old) (specificity pat) ≡ true
            → (r' : Rule) → Also r'
            → NoMoreSpecific pat r'
        longest_new longer r' (inl e) pat' c' = same_specificity r' pat pat' e c c'
        longest_new longer r' (inr m) pat' c' = ground (arith, t.longest r' m pat' c')

        longest_old :
            ltb (specificity old) (specificity pat) ≡ false
            → (r' : Rule) → Also r'
            → NoMoreSpecific old r'
        longest_old not_longer r' (inl e) pat' c' =
            ground (arith, same_specificity r' pat pat' e c c')
        longest_old not_longer r' (inr m) pat' c' = t.longest r' m pat' c'

-- The two sides of the loop's state.
abbrev side : Bool → Best × Best → Best
side true best = best.0
side false best = best.1

mem_nil_or : {P : Type 0} {r : Rule} → (Memᴰ r [] ⊎ P) → P
mem_nil_or (inl m) = elim m [ ]
mem_nil_or (inr h) = h

module _ {P : Type 0} {r r' : Rule} {rs : List Rule} where
  mem_later : (Memᴰ r' rs ⊎ ((r' ≡ r) ⊎ P)) → Memᴰ r' (r ∷ rs) ⊎ P
  mem_later (inl m) = inl (tail m)
  mem_later (inr (inl e)) = inl (head e)
  mem_later (inr (inr h)) = inr h

  mem_now : (Memᴰ r' (r ∷ rs) ⊎ P) → Memᴰ r' rs ⊎ ((r' ≡ r) ⊎ P)
  mem_now (inl (head e)) = inr (inl e)
  mem_now (inl (tail m)) = inl m
  mem_now (inr h) = inr (inr h)

mem_only : {r : Rule} {rs : List Rule} → (Memᴰ r rs ⊎ ⊥) → Memᴰ r rs
mem_only (inl m) = m
mem_only (inr h) = elim h [ ]

module _ ⦃ds : Doublestar⦄ (req : Request) where
  nothing_seen : (denying : Bool) → Tracks req denying (λ r. ⊥) (side denying (none, none))
  nothing_seen true = λ r h. absurd h
  nothing_seen false = λ r h. absurd h

  consider-Tracks :
      (denying : Bool) (S : Rule → Type 0) (r : Rule) (best : Best × Best)
      → Tracks req denying S (side denying best)
      → Tracks req denying (λ r'. (r' ≡ r) ⊎ S r') (side denying (consider r (applying r req) best))
  unfolding consider
  consider-Tracks true S r (d, a) t = elim (Option-cases (applying r req)) [
    | inl e ↦ rw e (Tracks-skip req true S r d (λ pat c. cc) t)
    | inr (pat, e) ↦ elim (Bool-cases (is_deny r.effect)) [
      | inl denies ↦ rw (e, denies) (Tracks-better req true S r pat d (e, denies) t)
      | inr grants ↦ rw (e, grants) (Tracks-skip req true S r d (λ pat' c. cc) t)
    ]
  ]
  consider-Tracks false S r (d, a) t = elim (Option-cases (applying r req)) [
    | inl e ↦ rw e (Tracks-skip req false S r a (λ pat c. cc) t)
    | inr (pat, e) ↦ elim (Bool-cases (is_deny r.effect)) [
      | inl denies ↦ rw (e, denies) (Tracks-skip req false S r a (λ pat' c. cc) t)
      | inr grants ↦ rw (e, grants) (Tracks-better req false S r pat a (e, grants) t)
    ]
  ]

  scan-Tracks :
      (denying : Bool) (S : Rule → Type 0) (rs : List Rule) (best : Best × Best)
      → Tracks req denying S (side denying best)
      → Tracks req denying (λ r. Memᴰ r rs ⊎ S r) (side denying (scan rs req best))
  unfolding scan
  scan-Tracks denying S [] best t =
      Tracks-congr req denying S (λ r. Memᴰ r [] ⊎ S r) (side denying best) (λ r. (inr, mem_nil_or))
        t
  scan-Tracks denying S (r ∷ rs) best t =
      let next = consider r (applying r req) best in
      let later =
        scan-Tracks denying (λ r'. (r' ≡ r) ⊎ S r') rs next (consider-Tracks denying S r best t) in
      Tracks-congr req denying (λ r'. Memᴰ r' rs ⊎ ((r' ≡ r) ⊎ S r'))
        (λ r'. Memᴰ r' (r ∷ rs) ⊎ S r') (side denying (scan rs req next))
        (λ r'. (mem_later, mem_now)) later

  -- The candidate of one side among all the rules of the repository.
  scan-side :
      (denying : Bool) (rs : List Rule)
      → Tracks req denying (λ r. Memᴰ r rs) (side denying (scan rs req (none, none)))
  scan-side denying rs =
      Tracks-congr req denying (λ r. Memᴰ r rs ⊎ ⊥) (λ r. Memᴰ r rs)
        (side denying (scan rs req (none, none))) (λ r. (mem_only, inl))
        (scan-Tracks denying (λ r. ⊥) rs (none, none) (nothing_seen denying))

  -- What a decision that a rule made says of that rule.
  pub record IsExplainedBy (denying : Bool) (p : Policy) (d : Decision) : Type 0 where
    pub rule : Rule
    pub pat : Pattern
    pub most_specific : IsMostSpecific req denying (λ r. Memᴰ r (rules_of p req.repo)) rule pat
    pub rule_id : d.rule_id ≡ rule.id
    pub pattern : d.pattern ≡ pat.raw
    pub description : d.description ≡ rule.description
    pub policy_version : d.policy_version ≡ p.version

  abbrev made_by : Bool → Reason
  made_by denying = if denying then denied_by_rule else allowed_by_rule

  conclude-IsExplainedBy :
      (p : Policy) (denying : Bool) (d a : Best)
      → Tracks req true (λ r. Memᴰ r (rules_of p req.repo)) d
      → Tracks req false (λ r. Memᴰ r (rules_of p req.repo)) a
      → (conclude p.version d a).reason ≡ made_by denying
      → IsExplainedBy denying p (conclude p.version d a)
  unfolding conclude
  conclude-IsExplainedBy p true (some (r, pat)) a td ta h = record {
    rule = r;
    pat = pat;
    most_specific = td;
    rule_id = refl;
    pattern = refl;
    description = refl;
    policy_version = refl;
  }
  conclude-IsExplainedBy p false none (some (r, pat)) td ta h = record {
    rule = r;
    pat = pat;
    most_specific = ta;
    rule_id = refl;
    pattern = refl;
    description = refl;
    policy_version = refl;
  }
  conclude-IsExplainedBy p false (some x) a td ta h = cc
  conclude-IsExplainedBy p true none none td ta h = cc
  conclude-IsExplainedBy p true none (some x) td ta h = cc
  conclude-IsExplainedBy p false none none td ta h = cc

  -- A decision that a rule made names a rule of the repository that applies and has the deciding
  -- effect, by the pattern that the loop found; for no other such rule did it find a more specific
  -- one. It carries that rule's description and the policy's version.
  pub evaluate-IsExplainedBy :
      (p : Policy) (denying : Bool)
      → (evaluate p req).reason ≡ (if denying then denied_by_rule else allowed_by_rule)
      → IsExplainedBy denying p (evaluate p req)
  unfolding evaluate
  evaluate-IsExplainedBy p denying h =
      let best = scan (rules_of p req.repo) req (none, none) in
      let explained =
        conclude-IsExplainedBy p denying best.0 best.1 (scan-side true (rules_of p req.repo))
          (scan-side false (rules_of p req.repo)) in
      elim (Bool-cases (has_key str_discrete req.repo p.repos)) [
        | inl known ↦ elim (Bool-cases (is_disabled p req.subject.user_id)) [
          | inl off ↦ absurd (ground arith)
          | inr on ↦ rw (known, on) (explained (ground arith))
        ]
        | inr unknown ↦ absurd (ground arith)
      ]
