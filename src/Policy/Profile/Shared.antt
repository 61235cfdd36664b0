-- ===== src/Policy/Profile/Shared.antt =====
-- Subjects with one profile are answered alike.
use nit.Base.{
  ℕ, suc, ◌≤◌, ◌≡◌, ◌≢◌, refl, ap, inl, inr, List, [], ◌∷◌, map, drop, All, GoString, arith,
  Bool-cases, itoa, itoa-injective, frames-injective, none,
}
use nit.Policy.Identity.{RepoId, Subject}
use nit.Policy.Pattern.{Doublestar}
use nit.Policy.Rule.{Action, Rule}
use nit.Policy.Engine.{Policy, Request, Best, rules_of, is_disabled, applying, scan, evaluate}
use nit.Policy.Profile.{positions, standing, profile_parts, profile_bytes, profile}

-- The two texts are no collision of the hash.
abbrev pub NoCollision : (GoString → GoString) → GoString → GoString → Type 0
NoCollision hash s t = hash s ≡ hash t → s ≡ t

module _ ⦃ds : Doublestar⦄ where
  positions_above :
      (i k : ℕ) (rs : List Rule) (ref : GoString) (action : Action) (s : Subject)
      → i ≤ k
      → All (λ j. i ≤ j) (positions k rs ref action s)
  unfolding positions
  positions_above i k [] ref action s h = tt
  positions_above i k (r ∷ rs) ref action s h =
      ground (arith, positions_above i (suc k) rs ref action s (omega arith))

  not_below : (i : ℕ) (is js : List ℕ) → All (λ j. suc i ≤ j) js → i ∷ is ≢ js
  not_below i is [] h e = absurd (ground arith)
  not_below i is (j ∷ js) h e = absurd (ground arith)

  abbrev pub asked : RepoId → GoString → Action → Subject → GoString → Request
  asked repo ref action subject path = record {
    repo = repo;
    ref = ref;
    subject = subject;
    path = path;
    action = action;
  }

  -- A rule at position `i` that only one of them passes is written for that one only.
  positions-cons :
      (i : ℕ) (r : Rule) (rs : List Rule) (repo : RepoId) (ref : GoString) (action : Action)
      (s t : Subject) (path : GoString)
      → positions i (r ∷ rs) ref action s ≡ positions i (r ∷ rs) ref action t
      → (applying r (asked repo ref action s path) ≡ applying r (asked repo ref action t path))
        × (positions (suc i) rs ref action s ≡ positions (suc i) rs ref action t)
  unfolding positions applying
  positions-cons i r rs repo ref action s t path e =
      let ps = positions (suc i) rs ref action s in
      let pt = positions (suc i) rs ref action t in
      let no_s =
        not_below i pt ps (positions_above (suc i) (suc i) rs ref action s (omega arith)) in
      let no_t =
        not_below i ps pt (positions_above (suc i) (suc i) rs ref action t (omega arith)) in
      ground (arith)

  scan-of_positions :
      (i : ℕ) (rs : List Rule) (repo : RepoId) (ref : GoString) (action : Action) (s t : Subject)
      (path : GoString) (best : Best × Best)
      → positions i rs ref action s ≡ positions i rs ref action t
      → scan rs (asked repo ref action s path) best ≡ scan rs (asked repo ref action t path) best
  unfolding scan
  scan-of_positions i [] repo ref action s t path best e = refl
  scan-of_positions i (r ∷ rs) repo ref action s t path best e =
      let (here, rest) = positions-cons i r rs repo ref action s t path e in
      rw here (scan-of_positions (suc i) rs repo ref action s t path _ rest)

  map-itoa_injective : (is js : List ℕ) → map itoa is ≡ map itoa js → is ≡ js
  map-itoa_injective [] [] e = refl
  map-itoa_injective [] (j ∷ js) e = absurd (ground arith)
  map-itoa_injective (i ∷ is) [] e = absurd (ground arith)
  map-itoa_injective (i ∷ is) (j ∷ js) e =
      let here = itoa-injective i j (ground arith) in
      let rest = map-itoa_injective is js (ground arith) in cc

  -- What is written after the action is the same.
  standing-of_profile_bytes :
      (p : Policy) (repo : RepoId) (ref : GoString) (action : Action) (s t : Subject)
      → profile_bytes p repo ref action s ≡ profile_bytes p repo ref action t
      → standing p repo ref action s ≡ standing p repo ref action t
  unfolding profile_parts profile_bytes
  standing-of_profile_bytes p repo ref action s t e =
      ap (drop 5)
        (frames-injective (profile_parts p repo ref action s) (profile_parts p repo ref action t) e)

  -- Equal standing leads to one decision: both are disabled, or the same rules are left to scan.
  evaluate-of_standing :
      (p : Policy) (repo : RepoId) (ref : GoString) (action : Action) (s t : Subject)
      (path : GoString)
      → standing p repo ref action s ≡ standing p repo ref action t
      → evaluate p (asked repo ref action s path) ≡ evaluate p (asked repo ref action t path)
  unfolding evaluate standing
  evaluate-of_standing p repo ref action s t path e =
      let rules = rules_of p repo in
      let ps = positions 0 rules ref action s in
      let pt = positions 0 rules ref action t in
      elim (Bool-cases (is_disabled p s.user_id)) [
        | inl off ↦ elim (Bool-cases (is_disabled p t.user_id)) [
          | inl off' ↦ rw (off, off') refl
          | inr on' ↦ absurd (ground arith)
        ]
        | inr on ↦ elim (Bool-cases (is_disabled p t.user_id)) [
          | inl off' ↦ absurd (ground arith)
          | inr on' ↦
              let same : ps ≡ pt = map-itoa_injective ps pt (ground arith) in
              rw (on, on', scan-of_positions 0 rules repo ref action s t path (none, none) same)
                refl
        ]
      ]

  -- Two subjects with one profile for a repository, a ref and an action are given the same decision,
  -- its reason and its rule included, for every path; provided that the bytes written for the two
  -- are no collision of SHA-256.
  pub evaluate-profile :
      (sha256_hex : GoString → GoString) (p : Policy) (repo : RepoId) (ref : GoString)
      (action : Action) (s t : Subject)
      → NoCollision sha256_hex
          (profile_bytes p repo ref action s)
          (profile_bytes p repo ref action t)
      → profile sha256_hex p repo ref action s ≡ profile sha256_hex p repo ref action t
      → (path : GoString)
      → evaluate p (asked repo ref action s path) ≡ evaluate p (asked repo ref action t path)
  unfolding profile
  evaluate-profile sha256_hex p repo ref action s t no_collision e path =
      evaluate-of_standing p repo ref action s t path
        (standing-of_profile_bytes p repo ref action s t (no_collision e))
