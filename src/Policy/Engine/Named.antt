-- ===== src/Policy/Engine/Named.antt =====
-- Which rule a decision names, stated without the tests and the measure of pkg/policy/engine.go.
use mathlib.Core.List.{List, [], ◌∷◌, ◌++◌, Memᴰ}
use nit.Base.{ℕ, ◌≡◌, ◌≢◌, ◌≤◌, ◌⊎◌, Bool, true, false, GoString, All, length}
use nit.Policy.Pattern.{Doublestar, Pattern}
use nit.Policy.Rule.{Rule, Effect, deny}
use nit.Policy.Decision.{Decision}
use nit.Policy.Engine.{Policy, Request, rules_of}
use nit.Policy.Engine.Applies.{Applies, Covers}

-- The bytes that are not literal in a glob: `*`, `?`, `[` and `{`.
abbrev pub IsMeta : ℕ → Type 0
IsMeta c = (c ≡ 42) ⊎ ((c ≡ 63) ⊎ ((c ≡ 91) ⊎ (c ≡ 123)))

abbrev pub Stops : GoString → Type 0
Stops [] = Unit
Stops (c ∷ rest) = IsMeta c

-- The literal prefix of a glob has this length: it has no such byte, and ends at one or with the glob.
pub record IsLiteral (glob : GoString) (n : ℕ) : Type 0 where
  pub prefix : GoString
  pub rest : GoString
  pub split : glob ≡ prefix ++ rest
  pub long : length prefix ≡ n
  pub literal : All (λ c. ¬ IsMeta c) prefix
  pub stops : Stops rest

module _ ⦃ds : Doublestar⦄ where
  -- The first pattern of a list that covers a path.
  pub record IsFirstOf (ps : List Pattern) (path : GoString) (pat : Pattern) : Type 0 where
    pub before : List Pattern
    pub after : List Pattern
    pub split : ps ≡ before ++ pat ∷ after
    pub passed : All (λ q. ¬ Covers q path) before
    pub covers : Covers pat path

  -- Whether the effect of a rule is on this side.
  abbrev pub IsOnSide : Bool → Effect → Type 0
  IsOnSide true effect = effect ≡ deny
  IsOnSide false effect = effect ≢ deny

  module _ (req : Request) (denying : Bool) where
    -- A rule that reaches the request, by the first of its patterns that covers the path.
    pub record Reaches (r : Rule) (pat : Pattern) : Type 0 where
      pub applies : Applies r req
      pub first : IsFirstOf r.paths req.path pat
      pub on_side : IsOnSide denying r.effect

    -- What a decision that a rule made says of that rule.
    pub record IsNamed (p : Policy) (d : Decision) : Type 0 where
      pub rule : Rule
      pub listed : Memᴰ rule (rules_of p req.repo)
      pub pat : Pattern
      pub reaches : Reaches rule pat
      pub literal : ℕ
      pub measured : IsLiteral pat.glob literal
      pub longest :
          (r : Rule) (other : Pattern) (n : ℕ)
          → Memᴰ r (rules_of p req.repo)
          → Reaches r other
          → IsLiteral other.glob n
          → n ≤ literal
      pub rule_id : d.rule_id ≡ rule.id
      pub pattern : d.pattern ≡ pat.raw
      pub description : d.description ≡ rule.description
      pub policy_version : d.policy_version ≡ p.version
