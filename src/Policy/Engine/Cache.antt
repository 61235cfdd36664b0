-- ===== src/Policy/Engine/Cache.antt =====
-- pkg/policy/engine.go, `CachingEngine`: decisions memoized for one operation.
use mathlib.Core.List.{List, [], ◌∷◌}
use mathlib.Core.Path.{ap₂}
use nit.Base.{
  ◌∙◌, ◌≡◌, refl, inl, inr, none, some, GoString, str_discrete, arith, lookup, insert,
  lookup-insert_self, lookup-insert_ne, map, Option-cases,
}
use nit.Policy.Rule.{Action, action_discrete}
use nit.Policy.Decision.{Decision}
use nit.Policy.Engine.{Request, Engine, ask}

abbrev pub CacheKey : Type 0
CacheKey = GoString × Action

pub CacheKey-discrete : Discrete CacheKey
CacheKey-discrete = hlevel (str_discrete, action_discrete)

unfoldable pub key_discrete : Discrete CacheKey
unfolding CacheKey-discrete str_discrete action_discrete
key_discrete = CacheKey-discrete

pub record CachingEngine : Type 0 where
  pub engine : Engine
  pub base : Request
  pub cache : List (CacheKey × Decision)

unfoldable pub new_caching_engine : Engine → Request → CachingEngine
new_caching_engine engine base = record { engine = engine; base = base; cache = [] }

unfoldable pub cached_evaluate : CachingEngine → GoString → Action → CachingEngine × Decision
cached_evaluate c path action = elim (lookup key_discrete (path, action) c.cache) [
  | some d ↦ (c, d)
  | none ↦
      let d = c.engine (ask c.base path action) in
      (record c { cache = insert key_discrete (path, action) d c.cache }, d)
]

-- Every stored decision is the engine's own answer for its key.
pub record IsFaithful (c : CachingEngine) : Type 0 where
  pub stored :
      (path : GoString) (action : Action) (d : Decision)
      → lookup key_discrete (path, action) c.cache ≡ some d
      → d ≡ c.engine (ask c.base path action)

-- A new cache holds nothing.
pub new_caching_engine-IsFaithful :
    (engine : Engine) (base : Request) → IsFaithful (new_caching_engine engine base)
unfolding new_caching_engine lookup
new_caching_engine-IsFaithful engine base = record { stored = λ path action d h. cc }

module _ (c : CachingEngine) (path : GoString) (action : Action) where
  pub cached_evaluate-decision :
      IsFaithful c → (cached_evaluate c path action).1 ≡ c.engine (ask c.base path action)
  unfolding cached_evaluate
  cached_evaluate-decision f = elim (Option-cases (lookup key_discrete (path, action) c.cache)) [
    | inl miss ↦ rw (miss, cached_evaluate)
    | inr (d, hit) ↦ rw (hit, cached_evaluate) (f.stored path action d hit)
  ]

  pub cached_evaluate-engine : (cached_evaluate c path action).0.engine ≡ c.engine
  unfolding cached_evaluate
  cached_evaluate-engine = ground arith

  pub cached_evaluate-base : (cached_evaluate c path action).0.base ≡ c.base
  unfolding cached_evaluate
  cached_evaluate-base = ground arith

  insert-IsFaithful :
      IsFaithful c
      → IsFaithful (record c {
        cache = insert key_discrete (path, action) (c.engine (ask c.base path action)) c.cache;
      })
  insert-IsFaithful f = record {
    stored = λ path' action' d h. elim (key_discrete (path, action) (path', action')) [
      | yes e ↦ ground (
        arith,
        lookup-insert_self key_discrete (path, action) (c.engine (ask c.base path action)) c.cache,
      )
      | no ne ↦ f.stored path' action' d (rw (lookup-insert_ne key_discrete _ _ _ c.cache ne) at h)
    ];
  }

  pub cached_evaluate-IsFaithful : IsFaithful c → IsFaithful (cached_evaluate c path action).0
  unfolding cached_evaluate
  cached_evaluate-IsFaithful f = elim (Option-cases (lookup key_discrete (path, action) c.cache)) [
    | inl miss ↦ rw (miss, cached_evaluate) (insert-IsFaithful f)
    | inr (d, hit) ↦ rw (hit, cached_evaluate) f
  ]

-- The questions of one operation, in order, through one caching engine.
unfoldable pub answers : CachingEngine → List CacheKey → List Decision
answers c [] = []
answers c ((path, action) ∷ keys) =
    let (c', d) = cached_evaluate c path action in d ∷ answers c' keys

answers_of_IsFaithful :
    (engine : Engine) (base : Request) (c : CachingEngine) (keys : List CacheKey)
    → c.engine ≡ engine
    → c.base ≡ base
    → IsFaithful c
    → answers c keys ≡ map (λ k. engine (ask base k.0 k.1)) keys
unfolding answers
answers_of_IsFaithful engine base c [] e b f = refl
answers_of_IsFaithful engine base c ((path, action) ∷ keys) e b f =
    let later =
      answers_of_IsFaithful engine base (cached_evaluate c path action).0 keys
        (cached_evaluate-engine c path action ∙ e) (cached_evaluate-base c path action ∙ b)
        (cached_evaluate-IsFaithful c path action f) in
    ap₂ ◌∷◌ (rw (cached_evaluate-decision c path action f, e, b)) later

-- Whatever is asked through a new caching engine, in whatever order and however often, is answered
-- as the wrapped engine answers it directly.
pub answers-new_caching_engine :
    (engine : Engine) (base : Request) (keys : List CacheKey)
    → answers (new_caching_engine engine base) keys ≡ map (λ k. engine (ask base k.0 k.1)) keys
unfolding new_caching_engine
answers-new_caching_engine engine base keys =
    answers_of_IsFaithful engine base (new_caching_engine engine base) keys refl refl
      (new_caching_engine-IsFaithful engine base)
