-- ===== src/Policy/Profile.antt =====
-- pkg/policy/profile.go: the fingerprint of what decides a subject's requests for one repository,
-- ref and action. SHA-256, written in hexadecimal, is the parameter `sha256_hex`.
pub mod Shared
use nit.Base.{ℕ, suc, GoString, List, [], ◌∷◌, ◌++◌, map, not, text, if◌then◌else◌, itoa, frames}
use nit.Policy.Identity.{RepoId, Subject}
use nit.Policy.Pattern.{Doublestar}
use nit.Policy.Rule.{
  Action, read, write, create, delete, admin, other_action, Rule, has_action, matches_subject,
  matches_ref,
}
use nit.Policy.Engine.{Policy, rules_of, is_disabled}

-- `string(action)`.
unfoldable pub action_string : Action → GoString
action_string read = text "read"
action_string write = text "write"
action_string create = text "create"
action_string delete = text "delete"
action_string admin = text "admin"
action_string (other_action s) = s

module _ ⦃ds : Doublestar⦄ where
  -- The loop: the positions, from `i` on, of the rules that pass its three tests.
  unfoldable pub positions : ℕ → List Rule → GoString → Action → Subject → List ℕ
  positions i [] ref action subject = []
  positions i (r ∷ rs) ref action subject =
      let rest = positions (suc i) rs ref action subject in
      if not (has_action r action)
      then rest
      else if not (matches_subject r subject)
      then rest
      else if not (matches_ref r ref)
      then rest
      else i ∷ rest

  -- What is written after the action.
  unfoldable pub standing : Policy → RepoId → GoString → Action → Subject → List GoString
  unfolding positions itoa
  standing p repo ref action subject =
      if is_disabled p subject.user_id
      then text "disabled" ∷ []
      else text "enabled" ∷ map itoa (positions 0 (rules_of p repo) ref action subject)

  -- The parts that are written to the hash, each by `write`.
  unfoldable pub profile_parts : Policy → RepoId → GoString → Action → Subject → List GoString
  unfolding standing action_string
  profile_parts p repo ref action subject =
      text "nit-profile-v1"
      ∷ p.version
      ∷ repo
      ∷ ref
      ∷ action_string action
      ∷ standing p repo ref action subject

  unfoldable pub profile_bytes : Policy → RepoId → GoString → Action → Subject → GoString
  unfolding profile_parts frames
  profile_bytes p repo ref action subject = frames (profile_parts p repo ref action subject)

  unfoldable pub profile :
      (GoString → GoString) → Policy → RepoId → GoString → Action → Subject → GoString
  unfolding profile_bytes
  profile sha256_hex p repo ref action subject =
      sha256_hex (profile_bytes p repo ref action subject)
