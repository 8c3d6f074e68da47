-- ===== src/Codebook/Tree.antt =====
-- What the table of internal/repository/dao/codebook.go promises: the nodes form trees, and the path
-- and the depth of a node are those of its place.
pub mod Paths
pub mod Relocation
pub mod Spaces
pub mod Effects
pub mod Rows
pub mod Moves
pub mod Moved
pub mod Ancestors
pub mod Reading
pub mod Batches
pub mod Targets
pub mod Listing
pub mod Sorts
use etask.Base.{ℕ, ◌≡◌, ◌⊎◌, true, List, [], ◌∷◌, ◌++◌, pos, length, Member}
use etask.Domain.Codebook.{Codebook}
use etask.Domain.Codebook.Checks.{is_directory}

pub record ParentOf (p n : Codebook) : Type 0 where
  pub holds_nodes : is_directory p ≡ true
  pub named : n.parent_id ≡ p.id
  pub path : n.path_ids ≡ p.path_ids ++ (p.id ∷ [])
  pub scope : n.scope ≡ p.scope
  pub project : n.project_id ≡ p.project_id
  pub tenant : n.tenant_id ≡ p.tenant_id

abbrev pub Placed : List Codebook → Codebook → Type 0
Placed nodes n =
    ((n.parent_id ≡ 0) × (n.path_ids ≡ [])) ⊎ ((p : Codebook) × Member p nodes × ParentOf p n)

pub record IsTree (nodes : List Codebook) : Type 0 where
  pub placed : (n : Codebook) → Member n nodes → Placed nodes n
  pub depths : (n : Codebook) → Member n nodes → n.depth ≡ pos (length n.path_ids)
  pub unique : (a b : Codebook) → Member a nodes → Member b nodes → a.id ≡ b.id → a ≡ b
