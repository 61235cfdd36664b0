-- ===== src/Worker/Filter.antt =====
-- internal/worker/pull.go, `filterForReader`: what of a diff a developer may read.
use nit.Base.{
  ℕ, some, [], ◌++◌, GoString, text, is_empty, length, trim_space, if◌then◌else◌, Result, ok, err,
  ◌>>=◌,
}
use nit.Policy.Identity.{Subject, RepoId}
use nit.Policy.Pattern.{Doublestar}
use nit.Policy.Engine.{Policy, evaluate}
use nit.Policy.Compile.{subject}
use nit.Patch.Sections.{ParseError, empty}
use nit.Patch.Parse.{Gitdiff, ChangeSet, parse}
use nit.Enforce.Guards.{Guards}
use nit.Enforce.Pass.{Options, Outcome, pull}
use nit.Worker.State.{TaskError, permanent, transient, or_transient}

-- The patch for a reader, and the counts of its sections.
pub record Filtered : Type 0 where
  pub patch : GoString
  pub total : ℕ
  pub delivered : ℕ
  pub withheld : ℕ

abbrev pub nothing_filtered : Filtered
nothing_filtered = record { patch = []; total = 0; delivered = 0; withheld = 0 }

abbrev pub not_in_policy : TaskError
not_in_policy = permanent (text "user_not_in_policy")

-- The subject of a user, as `current.Subject` resolves it.
unfoldable pub reader_of : Policy → GoString → Result TaskError Subject
reader_of policy user = elim (subject user policy) [ err e ↦ err not_in_policy | ok s ↦ ok s ]

abbrev pub counted : Outcome → Filtered
counted r = record {
  patch = r.patch;
  total = length r.verdicts;
  delivered = length r.kept;
  withheld = length r.dropped;
}

module _ ⦃ds : Doublestar⦄ ⦃gd : Gitdiff⦄ where
  abbrev pub reader_options : Guards → Policy → RepoId → GoString → Subject → Options
  reader_options guards policy repo branch reader = record {
    engine = some (evaluate policy);
    repo = repo;
    ref = text "refs/heads/" ++ branch;
    subject = reader;
    guards = guards;
  }

  -- The pass over the sections.
  unfoldable pub filter_set :
      Guards → Policy → RepoId → GoString → Subject → ChangeSet → Result TaskError Filtered
  filter_set guards policy repo branch reader set =
      or_transient (pull set (reader_options guards policy repo branch reader)) >>= λ r.
      ok (counted r)

  -- `filterForReader` for a parsed patch, whose subject is resolved after that.
  abbrev pub filter_parsed :
      Guards
      → Policy
      → RepoId
      → GoString
      → GoString
      → Result ParseError ChangeSet
      → Result TaskError Filtered
  filter_parsed guards policy repo branch user (err empty) = ok nothing_filtered
  filter_parsed guards policy repo branch user (err e) = err transient
  filter_parsed guards policy repo branch user (ok set) =
      reader_of policy user >>= λ reader. filter_set guards policy repo branch reader set

  unfoldable pub filter_for_reader :
      Guards → Policy → RepoId → GoString → GoString → GoString → Result TaskError Filtered
  unfolding reader_of filter_set
  filter_for_reader guards policy repo branch user raw =
      if is_empty (trim_space raw)
      then ok nothing_filtered
      else filter_parsed guards policy repo branch user (parse raw)
