-- ===== src/Domain/Codebook.antt =====
-- internal/domain/codebook.go: projects, nodes and versions of source code, and what they allow.
-- A scope, a kind or a storage type is a string; its empty and its unknown values are constructors.
-- The path column, such as "/1/2/", is the list of the ids in it.
pub mod Checks
use etask.Base.{ℕ, String, Bool, true, false, Option, List, ℤ}

pub data CodebookScope : Type 0 where
  no_scope system_scope tenant_scope : CodebookScope
  unknown_scope : String → CodebookScope

pub data CodebookKind : Type 0 where
  no_kind directory file : CodebookKind
  unknown_kind : String → CodebookKind

pub data CodebookContentStorage : Type 0 where
  no_storage inline blob : CodebookContentStorage
  unknown_storage : String → CodebookContentStorage

pub data CodebookProjectStatus : Type 0 where
  no_status normal archived : CodebookProjectStatus
  unknown_status : String → CodebookProjectStatus

pub record CodebookProject : Type 0 where
  pub id : ℕ
  pub tenant_id : ℕ
  pub scope : CodebookScope
  pub name : String
  pub desc : String
  pub sort_no : ℤ
  pub status : CodebookProjectStatus
  pub artifact_enabled : Bool
  pub artifact_namespace : String
  pub source_revision : ℕ
  pub ctime : ℕ
  pub utime : ℕ

-- A row of the table of nodes. The content of a file stands in its versions.
pub record Codebook : Type 0 where
  pub id : ℕ
  pub tenant_id : ℕ
  pub scope : CodebookScope
  pub project_id : ℕ
  pub parent_id : ℕ
  pub path_ids : List ℕ
  pub depth : ℤ
  pub name : String
  pub owner : String
  pub kind : CodebookKind
  pub sort_no : ℤ
  pub secret : String
  pub current_version_id : ℕ
  pub ctime : ℕ
  pub utime : ℕ

pub record CodebookVersion : Type 0 where
  pub id : ℕ
  pub node_id : ℕ
  pub tenant_id : ℕ
  pub scope : CodebookScope
  pub version_no : ℕ
  pub code : String
  pub storage_type : CodebookContentStorage
  pub object_key : String
  pub size : ℕ
  pub content_type : String
  pub hash : String
  pub message : String
  pub source_key : Option String
  pub author_user_id : ℕ
  pub ctime : ℕ

pub record CodebookVersionCreate : Type 0 where
  pub node_id : ℕ
  pub code : String
  pub message : String
  pub expected_current_version_id : ℤ
  pub source_key : String

pub record CodebookSortItem : Type 0 where
  pub id : ℕ
  pub project_id : ℕ
  pub parent_id : ℕ
  pub path_ids : List ℕ
  pub depth : ℤ
  pub sort_no : ℤ

-- What a caller asks to be written: a node, and the code that goes with it.
pub record CodebookWrite : Type 0 where
  pub node : Codebook
  pub code : String
