-- ===== src/Worker/Shared.antt =====
-- Why a projection may be shared: readers with one profile are given the same.
use mathlib.Core.Path.{fun_ext, ap₂}
use nit.Base.{
  ◌&&◌, suc, ◌≡◌, ◌≢◌, refl, sym, ap, ◌∙◌, inl, inr, Bool, not, some, List, [], ◌∷◌, ◌++◌, map,
  keep, all, length, GoString, text, is_empty, trim_space, arith, ok, err, Result-cases, Bool-cases,
  some-injective,
}
use nit.Policy.Identity.{Subject, RepoId}
use nit.Policy.Pattern.{Doublestar}
use nit.Policy.Rule.{read}
use nit.Policy.Decision.{Decision}
use nit.Policy.Engine.{Policy, Engine, evaluate, ask}
use nit.Policy.Profile.{profile, profile_bytes}
use nit.Policy.Profile.Shared.{NoCollision, asked, evaluate-profile}
use nit.Patch.Change.{Change, paths}
use nit.Patch.Parse.{Gitdiff, ChangeSet, parse}
use nit.Patch.Render.{render}
use nit.Patch.Sections.{ParseError, empty}
use nit.Patch.RoundTrip.{IsNumberedFrom, parse-IsParseOf}
use nit.Enforce.Guards.{Guards}
use nit.Enforce.Check.{plain}
use nit.Enforce.Pass.{Options, Outcome, EnforceError, request, readings, validate, pull}
use nit.Enforce.Direct.{is_granted, is_authorized, direct_verdict}
use nit.Enforce.Outcome.{pull-IsPassOf, pull-readable}
use nit.Worker.Filter.{
  reader_of, reader_options, filter_set, filter_for_reader, counted, filter_parsed,
}

length-map {ℓ κ} :
    {A : Type ℓ} {B : Type κ} (f : A → B) (xs : List A) → length (map f xs) ≡ length xs
length-map f [] = refl
length-map f (x ∷ xs) = ap suc (length-map f xs)

pull_err :
    (set : ChangeSet) (o : Options) (e : EnforceError) → validate o ≡ err e → pull set o ≡ err e
unfolding pull
pull_err set o e h = rw (h, pull) refl

pull_ok :
    (set : ChangeSet) (o : Options) (engine : Engine)
    → validate o ≡ ok engine
    → (r : Outcome) × (pull set o ≡ ok r)
unfolding pull
pull_ok set o engine h = elim (Result-cases (pull set o)) [
  | inl (e, fails) ↦ absurd (let k = rw (h, pull) at fails in cc)
  | inr done ↦ done
]

pass_of :
    (set : ChangeSet) (o : Options) (engine : Engine) (r : Outcome)
    → o.engine ≡ some engine
    → pull set o ≡ ok r
    → (length r.verdicts ≡ length set.changes)
      × (r.kept ≡ keep (is_authorized engine (request o) readings) set.changes)
      × (r.dropped ≡ keep (λ c. not (is_authorized engine (request o) readings c)) set.changes)
pass_of set o engine r configured e =
    let pass = pull-IsPassOf set o r e in
    let same = some-injective (sym pass.configured ∙ configured) in
    (
      ap length pass.verdicts
          ∙ length-map (direct_verdict pass.engine (request o) readings) set.changes,
      pass.kept ∙ ap (λ en. keep (is_authorized en (request o) readings) set.changes) same,
      pass.dropped
          ∙ ap (λ en. keep (λ c. not (is_authorized en (request o) readings c)) set.changes) same,
    )

module _ ⦃ds : Doublestar⦄ ⦃gd : Gitdiff⦄ (guards : Guards) (policy : Policy) (repo : RepoId)
    (branch : GoString) where
  abbrev options : Subject → Options
  options s = reader_options guards policy repo branch s

  abbrev readable_by : Subject → Change → Bool
  readable_by s c =
      all (λ path. (evaluate policy (ask (request (options s)) path read)).allowed) (paths c)

  validate_same :
      (s t : Subject)
      → s.user_id ≢ []
      → t.user_id ≢ []
      → validate (options s) ≡ validate (options t)
  unfolding validate
  validate_same s t hs ht = ground arith

  module _ (s t : Subject)
      (same : (path : GoString)
        → evaluate policy (asked repo (text "refs/heads/" ++ branch) read s path)
          ≡ evaluate policy (asked repo (text "refs/heads/" ++ branch) read t path)) where
    granted_same :
        (ps : List GoString)
        → all (is_granted (evaluate policy) (request (options s))) (map (λ p. plain p read) ps)
          ≡ all (is_granted (evaluate policy) (request (options t))) (map (λ p. plain p read) ps)
    granted_same [] = refl
    granted_same (path ∷ ps) = ap₂ ◌&&◌ (ap Decision.allowed (same path)) (granted_same ps)

    authorized_same :
        is_authorized (evaluate policy) (request (options s)) readings
        ≡ is_authorized (evaluate policy) (request (options t)) readings
    authorized_same = fun_ext (λ c. granted_same (paths c))

    readable_same : readable_by s ≡ readable_by t
    readable_same = fun_ext (λ c. go (paths c))
      where
        go :
            (ps : List GoString)
            → all (λ path. (evaluate policy (ask (request (options s)) path read)).allowed) ps
              ≡ all (λ path. (evaluate policy (ask (request (options t)) path read)).allowed) ps
        go [] = refl
        go (path ∷ ps) = ap₂ ◌&&◌ (ap Decision.allowed (same path)) (go ps)

    counted_same :
        (set : ChangeSet) (r q : Outcome)
        → IsNumberedFrom 0 set.changes
        → pull set (options s) ≡ ok r
        → pull set (options t) ≡ ok q
        → counted r ≡ counted q
    counted_same set r q numbered er eq =
        let (total, kept, dropped) = pass_of set (options s) (evaluate policy) r refl er in
        let (total', kept', dropped') = pass_of set (options t) (evaluate policy) q refl eq in
        let (_, patch) = pull-readable set (options s) (evaluate policy) r numbered refl er in
        let (_, patch') = pull-readable set (options t) (evaluate policy) q numbered refl eq in
        let patches : r.patch ≡ q.patch = patch ∙ ap (render set) readable_same ∙ sym patch' in
        let verdicts : length r.verdicts ≡ length q.verdicts = total ∙ sym total' in
        let delivered : length r.kept ≡ length q.kept =
          ap length (kept ∙ ap (λ f. keep f set.changes) authorized_same ∙ sym kept') in
        let withheld : length r.dropped ≡ length q.dropped =
          ap length (
            dropped ∙ ap (λ f. keep (λ c. not (f c)) set.changes) authorized_same ∙ sym dropped') in
        cc

    filter_set_same :
        (set : ChangeSet)
        → IsNumberedFrom 0 set.changes
        → s.user_id ≢ []
        → t.user_id ≢ []
        → filter_set guards policy repo branch s set ≡ filter_set guards policy repo branch t set
    unfolding filter_set
    filter_set_same set numbered hs ht =
        let valid = validate_same s t hs ht in
        elim (Result-cases (validate (options s))) [
          | inl (e, f) ↦
              let fails = pull_err set (options s) e f in
              let fails' = pull_err set (options t) e (sym valid ∙ f) in rw (fails, fails') refl
          | inr (engine, f) ↦
              let (r, done) = pull_ok set (options s) engine f in
              let (q, done') = pull_ok set (options t) engine (sym valid ∙ f) in
              rw (done, done') (ap ok (counted_same set r q numbered done done'))
        ]

  -- Two users with one profile, for reading, on the branch of a pull: whatever the diff is, filtering
  -- it gives both the same patch and the same counts, or fails alike. Their IDs must not be empty, and
  -- what is written for their profiles must be no collision of SHA-256.
  pub filter_for_reader-profile :
      (sha256_hex : GoString → GoString) (raw user user' : GoString) (s t : Subject)
      → reader_of policy user ≡ ok s
      → reader_of policy user' ≡ ok t
      → s.user_id ≢ []
      → t.user_id ≢ []
      → let ref = text "refs/heads/" ++ branch in
        NoCollision sha256_hex
          (profile_bytes policy repo ref read s)
          (profile_bytes policy repo ref read t)
        → profile sha256_hex policy repo ref read s ≡ profile sha256_hex policy repo ref read t
        → filter_for_reader guards policy repo branch user raw
          ≡ filter_for_reader guards policy repo branch user' raw
  unfolding filter_for_reader
  filter_for_reader-profile sha256_hex raw user user' s t rs rt hs ht no_collision e =
      let same =
        evaluate-profile sha256_hex policy repo (text "refs/heads/" ++ branch) read s t no_collision
          e in
      elim (Bool-cases (is_empty (trim_space raw))) [
        | inl nothing ↦ rw nothing refl
        | inr something ↦ rw something (elim (Result-cases (parse raw)) [
          | inl (fault, failed) ↦ rw failed (alike fault)
          | inr (set, parsed) ↦
              rw (parsed, rs, rt)
                (filter_set_same s t same set (parse-IsParseOf raw set parsed).numbered hs ht)
        ])
      ]
    where
      alike :
          (fault : ParseError)
          → filter_parsed guards policy repo branch user (err fault)
            ≡ filter_parsed guards policy repo branch user' (err fault)
      alike empty = refl
      alike _ = refl
