-- ===== src/Codebook/Tree/Ancestors.antt =====
-- The ids in a path are those of the nodes above: no node lies below itself.
use etask.Base.{
  ℕ, zero, suc, ◌≤◌, ◌≡◌, inl, inr, sym, ap, subst, arith, true, List, [], ◌∷◌, length, Member,
}
use etask.Domain.Codebook.{Codebook}
use etask.Domain.Codebook.Checks.{has_prefix}
use etask.Codebook.Tree.{IsTree}
use etask.Codebook.Tree.Paths.{
  length-snoc, Member-snoc, has_prefix_self, has_prefix-grow, has_prefix-length,
}
use etask.Codebook.Tree.Relocation.{path_below}

no_member : (xs : List ℕ) (j : ℕ) → length xs ≤ 0 → Member j xs → ⊥
no_member [] j h m = m
no_member (x ∷ xs) j h m = omega arith

module _ (nodes : List Codebook) (tree : IsTree nodes) where
  ancestor :
      (k : ℕ) (n : Codebook) (j : ℕ)
      → Member n nodes
      → length n.path_ids ≤ k
      → Member j n.path_ids
      → (a : Codebook) × Member a nodes × (a.id ≡ j) × (has_prefix n.path_ids (path_below a) ≡ true)
  ancestor zero n j m fits h = absurd (no_member n.path_ids j fits h)
  ancestor (suc k) n j m fits h = elim (tree.placed n m) [
    | inl root ↦ elim (subst (λ p. Member j p) root.1 h) [ ]
    | inr (p, mp, o) ↦ elim (Member-snoc p.path_ids p.id j (subst (λ z. Member j z) o.path h)) [
      | inl above ↦
          let shorter : length p.path_ids ≤ k =
            omega (arith, ap length o.path, length-snoc p.path_ids p.id, fits) in
          let (a, ma, e, below) = ancestor k p j mp shorter above in
          (
            a,
            ma,
            e,
            subst (λ z. has_prefix z (path_below a) ≡ true) (sym o.path)
                (has_prefix-grow p.path_ids (path_below a) p.id below),
          )
      | inr e ↦ (
        p,
        mp,
        sym e,
        subst (λ z. has_prefix z (path_below p) ≡ true) (sym o.path)
            (has_prefix_self (path_below p)),
      )
    ]
  ]

  -- A node whose path names the node `x` lies below it.
  pub Member-below :
      (x n : Codebook)
      → Member x nodes
      → Member n nodes
      → Member x.id n.path_ids
      → has_prefix n.path_ids (path_below x) ≡ true
  Member-below x n mx m h =
      let (a, ma, e, p) = ancestor (length n.path_ids) n x.id m (omega arith) h in
      subst (λ z. has_prefix n.path_ids (path_below z) ≡ true) (tree.unique a x ma mx e) p

  pub not_below_itself : (n : Codebook) → Member n nodes → Member n.id n.path_ids → ⊥
  not_below_itself n m h = omega (
    arith,
    has_prefix-length n.path_ids (path_below n) (Member-below n n m m h),
    length-snoc n.path_ids n.id,
  )
