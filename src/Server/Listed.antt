-- ===== src/Server/Listed.antt =====
-- Which repositories a caller is told of.
use mathlib.Core.List.{Memᴰ}
use nit.Base.{◌≡◌, true, List}
use nit.Policy.Pattern.{Doublestar, Pattern}
use nit.Policy.Engine.{Policy, evaluate}
use nit.Store.Tables.{RepositoryRow}
use nit.Auth.{Principal}
use nit.Server.{ServerState}
use nit.Server.Front.{RepositoryView, repository_view, probe}

module _ ⦃ds : Doublestar⦄ where
  -- The view is of a stored repository of the caller's tenant, some path of which the caller may
  -- read, on no ref, by the policy.
  pub record IsVisible {B : Type 0} (p : Principal) (policy : Policy) (s : ServerState B)
      (v : RepositoryView) : Type 0 where
    pub row : RepositoryRow
    pub stored : Memᴰ row s.tables.repositories
    pub own : row.tenant_id ≡ p.tenant
    pub shown : v ≡ repository_view row
    pub pat : Pattern
    pub readable : (evaluate policy (probe row.policy_repo_id p.subject pat)).allowed ≡ true
