-- ===== src/Store/Library.antt =====
-- The tables of source code: nodes, versions and projects.
use etask.Base.{ℕ, String, Bool, List}
use etask.Domain.Codebook.{CodebookScope, Codebook, CodebookVersion, CodebookProject}

pub record Library : Type 0 where
  -- ctxutil.SystemTenantID, and the user of the context
  pub system_tenant : ℕ
  pub user : ℕ
  -- The tenant plugin of the ORM: whether a tenant reads, and whether it writes, a row of a tenant
  -- in a scope (rows of the SYSTEM scope are shared).
  pub may_read : ℕ → ℕ → CodebookScope → Bool
  pub may_write : ℕ → ℕ → CodebookScope → Bool
  -- The collation of the columns: equal names, and the order of names.
  pub same_name : String → String → Bool
  pub name_before : String → String → Bool
  -- sha256 in hexadecimal digits, and the n-th random UUID
  pub hash_code : String → String
  pub uuid : ℕ → String
  pub next_uuid : ℕ
  pub next_node_id : ℕ
  pub nodes : List Codebook
  pub next_code_version_id : ℕ
  pub code_versions : List CodebookVersion
  pub next_project_id : ℕ
  pub projects : List CodebookProject
