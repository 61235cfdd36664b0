-- ===== src/Tests/ProfileTests.antt =====
-- Profiles and the cache of projections. The text itself stands in for its hash.
use nit.Base.{
  ◌≡◌, ◌≤◌, ◌<◌, ◌+◌, ℕ, refl, some, none, List, [], ◌∷◌, text, GoString, ok, err, pos, Result,
  str_discrete, lookup, digits, itoa, frame, frames,
}
use nit.Policy.Identity.{Subject}
use nit.Policy.Rule.{
  read, action_discrete, has_action, matches_subject, subject_matches, matches_ref,
}
use nit.Policy.Engine.{evaluate}
use nit.Policy.Profile.{profile, profile_bytes, profile_parts, standing, positions, action_string}
use nit.Policy.Profile.Shared.{asked, evaluate-profile}
use nit.Blob.{BlobError, Descriptor, blob_not_found}
use nit.Taskspec.{PatchBlob}
use nit.PullCache.{
  Entry, new_cache, get_projection, put_projection, look, check_blob, held_under, drop_key,
  run_steps, cache_step, Step, looks, puts, len,
}
use nit.PullCache.Bounds.{NoRepeats, run_steps-IsBounded}
use nit.PullCache.Hits.{last_put, get_projection-IsLastPut}
use nit.Tests.Samples.{sample_globs, policy, as_alice}

-- Two users without groups, one of them not listed.
abbrev as_bob : Subject
as_bob = record { user_id = text "bob"; groups = [] }

abbrev main_ref : GoString
main_ref = text "refs/heads/main"

-- Both rules are left for a user without groups.
profile_of_alice :
    profile (λ b. b) policy (text "api") main_ref read as_alice
    ≡ text "14:nit-profile-v12:v13:api15:refs/heads/main4:read7:enabled1:01:1"
unfolding profile profile_bytes profile_parts standing positions action_string frames frame itoa
    digits has_action action_discrete matches_subject subject_matches matches_ref str_discrete
    lookup
profile_of_alice = refl

evaluate-profile_example :
    evaluate policy (asked (text "api") main_ref read as_alice (text "secrets/key"))
    ≡ evaluate policy (asked (text "api") main_ref read as_bob (text "secrets/key"))
unfolding profile profile_bytes profile_parts standing positions action_string frames frame itoa
    digits has_action action_discrete matches_subject subject_matches matches_ref str_discrete
    lookup
evaluate-profile_example =
    evaluate-profile (λ b. b) policy (text "api") main_ref read as_alice as_bob (λ e. e) refl
      (text "secrets/key")

abbrev projection : Entry
projection = record {
  patch = some (record {
    digest = text "d";
    size = pos 4;
    encoding = text "none";
    uncompressed_size = pos 4;
  });
  files_total = 2;
  files_delivered = 1;
  files_withheld = 1;
}

abbrev there : GoString → Result BlobError Descriptor
there digest = ok (record { digest = digest; size = 4 })

abbrev swept : GoString → Result BlobError Descriptor
swept digest = err blob_not_found

abbrev two_puts : List Step
two_puts = puts (text "k") projection 10 ∷ puts (text "j") projection 20 ∷ looks (text "k") 25 ∷ []

expires_at_its_end :
    (get_projection there (text "k") 60 (run_steps two_puts (new_cache (pos 50)))).1 ≡ none
unfolding run_steps cache_step new_cache get_projection look check_blob put_projection held_under
    drop_key str_discrete
expires_at_its_end = refl

swept_is_a_miss :
    (get_projection swept (text "k") 59 (run_steps two_puts (new_cache (pos 50)))).1 ≡ none
unfolding run_steps cache_step new_cache get_projection look check_blob put_projection held_under
    drop_key str_discrete
swept_is_a_miss = refl

get_projection-IsLastPut_example :
    (t : ℕ) × (last_put (text "k") two_puts none ≡ some (projection, t))
    × (59 < t + 50)
    × ((b : PatchBlob) → projection.patch ≡ some b → (d : Descriptor) × (there b.digest ≡ ok d))
unfolding run_steps cache_step new_cache get_projection look check_blob put_projection held_under
    drop_key str_discrete
get_projection-IsLastPut_example =
    get_projection-IsLastPut there (pos 50) two_puts (text "k") 59 projection refl

run_steps-IsBounded_example :
    let c = run_steps two_puts (new_cache (pos 50)) in (len c ≤ 1024) × NoRepeats c.order
run_steps-IsBounded_example = run_steps-IsBounded (pos 50) two_puts
