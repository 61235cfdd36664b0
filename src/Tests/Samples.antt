-- ===== src/Tests/Samples.antt =====
-- Sample globs, rules, policies and patches.
use mathlib.Core.List.{[], ◌∷◌}
use nit.Base.{Bool, true, false, ◌||◌, ◌&&◌, some, GoString, text, ◌==◌, has_prefix, drop_last, not}
use nit.Policy.Identity.{User, Repository, Subject}
use nit.Policy.Pattern.{Doublestar, Pattern}
use nit.Policy.Rule.{
  Action, read, write, create, delete, admin, allow, deny, any_subject, group, Rule, RuleSubject,
}
use nit.Policy.Engine.{Policy, Request}
use nit.Patch.Parse.{Gitdiff, GitFile}
use nit.Enforce.Guards.{Guards}

-- Globs without wildcards but "**" alone or at the end.
abbrev pub hits : GoString → GoString → Bool
hits pat path =
    pat == text "**"
    || (pat == path || (has_prefix path (drop_last (drop_last pat)) && not (has_prefix path pat)))

instance abbrev pub sample_globs : Doublestar
sample_globs = record { validate_pattern = λ s. true; match = λ pat path. some (hits pat path) }

abbrev pub everywhere : Pattern
everywhere = record { raw = text "**"; glob = text "**"; dir = [] }

abbrev pub secrets : Pattern
secrets = record { raw = text "secrets/"; glob = text "secrets/**"; dir = text "secrets" }

abbrev pub anybody : RuleSubject
anybody = record { type = any_subject; id = [] }

abbrev pub writers : Rule
writers = record {
  id = text "r1";
  subject = anybody;
  except = [];
  paths = everywhere ∷ [];
  refs = [];
  actions = read ∷ write ∷ create ∷ [];
  effect = allow;
  description = [];
}

abbrev pub no_secrets : Rule
no_secrets = record {
  id = text "r2";
  subject = anybody;
  except = record { type = group; id = text "ops" } ∷ [];
  paths = secrets ∷ [];
  refs = [];
  actions = read ∷ write ∷ create ∷ delete ∷ admin ∷ [];
  effect = deny;
  description = text "ask ops";
}

abbrev pub alice : User
alice = record { id = text "alice"; email = []; aliases = []; forge_logins = []; disabled = false }

abbrev pub api : Repository
api = record { id = text "api"; remote = []; forge = []; default_branch = [] }

abbrev pub policy : Policy
policy = record {
  tenant = text "default";
  version = text "v1";
  users = (text "alice", alice) ∷ [];
  groups = [];
  repos = (text "api", api) ∷ [];
  rules = (text "api", writers ∷ no_secrets ∷ []) ∷ [];
  memberships = (text "alice", []) ∷ [];
}

abbrev pub as_alice : Subject
as_alice = record { user_id = text "alice"; groups = [] }

abbrev pub asks : GoString → Action → Request
asks path action = record {
  repo = text "api";
  ref = text "refs/heads/main";
  subject = as_alice;
  path = path;
  action = action;
}

-- One file that is modified, whatever the section says.
abbrev pub modified : GitFile
modified = record {
  old_name = text "a";
  new_name = text "a";
  is_new = false;
  is_delete = false;
  is_rename = false;
  is_copy = false;
  old_mode = 0o100644;
  new_mode = 0;
  is_binary = false;
  fragments = (1, 2) ∷ [];
}

instance abbrev pub sample_gitdiff : Gitdiff
sample_gitdiff = record { parse_files = λ section. some (modified ∷ []) }

abbrev pub sample_patch : GoString
sample_patch = text "From x\ndiff --git a/a b/a\n+1\ndiff --git a/a b/a\n-2"

abbrev pub no_guards : Guards
no_guards = record {
  protected_paths = [];
  symlinks_require_admin = false;
  submodules_require_admin = false;
}
