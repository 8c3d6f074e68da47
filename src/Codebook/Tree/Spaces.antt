-- ===== src/Codebook/Tree/Spaces.antt =====
-- What lies below a node lies in its space, and only directories have something below them.
use etask.Base.{
  ℕ, zero, suc, ◌≤◌, ◌≡◌, inl, inr, ap, ◌∙◌, subst, arith, true, List, [], ◌∷◌, length, Member,
}
use etask.Domain.Codebook.{Codebook}
use etask.Domain.Codebook.Checks.{is_directory, has_prefix}
use etask.Codebook.Tree.{ParentOf, IsTree}
use etask.Codebook.Tree.Paths.{length-snoc, has_prefix-snoc, has_prefix-Member}
use etask.Codebook.Tree.Relocation.{path_below}

pub record InSpace (x n : Codebook) : Type 0 where
  pub scope : n.scope ≡ x.scope
  pub tenant : n.tenant_id ≡ x.tenant_id
  pub directory : is_directory x ≡ true

Member-length : (i : ℕ) (xs : List ℕ) → Member i xs → 1 ≤ length xs
Member-length i [] m = elim m [ ]
Member-length i (x ∷ xs) m = omega arith

module _ (nodes : List Codebook) (tree : IsTree nodes) where
  InSpace-parent : (x p n : Codebook) → ParentOf p n → InSpace x p → InSpace x n
  InSpace-parent x p n o s = record {
    scope = o.scope ∙ s.scope;
    tenant = o.tenant ∙ s.tenant;
    directory = s.directory;
  }

  pub InSpace-below :
      (x : Codebook)
      → Member x nodes
      → (k : ℕ) (n : Codebook) → Member n nodes
      → length n.path_ids ≤ k
      → has_prefix n.path_ids (path_below x) ≡ true
      → InSpace x n
  InSpace-below x there zero n m fits h = absurd (
      omega (arith, Member-length x.id n.path_ids (has_prefix-Member x.path_ids n.path_ids x.id h)))
  InSpace-below x there (suc k) n m fits h = elim (tree.placed n m) [
    | inl root ↦
        absurd (subst (λ p. Member x.id p) root.1 (has_prefix-Member x.path_ids n.path_ids x.id h))
    | inr (p, mp, o) ↦
        elim (has_prefix-snoc x.path_ids p.path_ids x.id p.id
          (subst (λ z. has_prefix z (path_below x) ≡ true) o.path h)) [
            | inl e ↦ InSpace-parent x p n o (
                InSpace-below x there k p mp
                  (omega (arith, ap length o.path, length-snoc p.path_ids p.id, fits)) e)
            | inr e ↦
                let same = tree.unique p x mp there e.1 in
                subst (λ z. InSpace z n) same
                  (record { scope = o.scope; tenant = o.tenant; directory = o.holds_nodes })
          ]
  ]
