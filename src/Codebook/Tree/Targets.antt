-- ===== src/Codebook/Tree/Targets.antt =====
-- internal/domain/codebook.go, internal/service/codebook/codebook.go: the place that a drag resolves
-- to is a proper one, for the dragged node and for the nodes that are already there.
use etask.Base.{
  ℕ, suc, ◌≡◌, ◌≢◌, ◌⊎◌, inl, inr, refl, sym, ap, ◌∙◌, subst, arith, Bool, true, false, not, none,
  some, List, [], pos, ◌+ℤ◌, length, Member, ◌==◌, ==→eq, ==-self, str_eq_iff,
}
use etask.Errs.{Result, ok}
use etask.Domain.Codebook.{
  CodebookScope, no_scope, system_scope, tenant_scope, unknown_scope, Codebook, CodebookSortItem,
}
use etask.Domain.Codebook.Checks.{
  ◌>>◌, require, same_scope, is_directory, has_prefix, resolve_move_target, at_root, below,
  child_path_ids, to_sort_item,
}
use etask.Codebook.Service.{into_target}
use etask.Codebook.Tree.{IsTree, ParentOf}
use etask.Codebook.Tree.Paths.{snoc-ne-nil, Member-snoc, length-snoc}
use etask.Codebook.Tree.Relocation.{IsTarget, path_below}
use etask.Codebook.Tree.Ancestors.{Member-below, not_below_itself}

pub same_scope-eq : (s t : CodebookScope) → same_scope s t ≡ true → s ≡ t
same_scope-eq no_scope no_scope h = refl
same_scope-eq system_scope system_scope h = refl
same_scope-eq tenant_scope tenant_scope h = refl
same_scope-eq (unknown_scope a) (unknown_scope b) h = ap unknown_scope ((str_eq_iff a b).0 h)
same_scope-eq no_scope system_scope h = absurd (ground arith)
same_scope-eq no_scope tenant_scope h = absurd (ground arith)
same_scope-eq no_scope (unknown_scope b) h = absurd (ground arith)
same_scope-eq system_scope no_scope h = absurd (ground arith)
same_scope-eq system_scope tenant_scope h = absurd (ground arith)
same_scope-eq system_scope (unknown_scope b) h = absurd (ground arith)
same_scope-eq tenant_scope no_scope h = absurd (ground arith)
same_scope-eq tenant_scope system_scope h = absurd (ground arith)
same_scope-eq tenant_scope (unknown_scope b) h = absurd (ground arith)
same_scope-eq (unknown_scope a) no_scope h = absurd (ground arith)
same_scope-eq (unknown_scope a) system_scope h = absurd (ground arith)
same_scope-eq (unknown_scope a) tenant_scope h = absurd (ground arith)

pub require-ok :
    {B : Type 0} (b : Bool) (k : Result B) (r : B)
    → (require b >> k) ≡ ok r
    → (b ≡ true) × (k ≡ ok r)
require-ok true k r h = (refl, h)
require-ok false k r h = absurd (ground arith)

pub not-true : (b : Bool) → not b ≡ true → b ≡ false
not-true true h = absurd (ground arith)
not-true false h = refl

one_deeper : (n : ℕ) → pos n +ℤ pos 1 ≡ pos (suc n)
unfolding ◌+ℤ◌
one_deeper n = ground arith

-- Where a target lies: at the root, or in a directory whose id is not 0.
abbrev pub IsRooted : CodebookSortItem → Type 0
IsRooted item = (item.path_ids ≡ []) ⊎ (item.parent_id ≢ 0)

module _ (nodes : List Codebook) (tree : IsTree nodes) (x : Codebook) (there : Member x nodes) where
  pub resolve-root :
      (item : CodebookSortItem)
      → resolve_move_target x none ≡ ok item
      → IsTarget nodes x item × IsRooted item
  unfolding resolve_move_target to_sort_item
  resolve-root item h =
      let same : at_root x ≡ item = cc in
      subst (λ i. IsTarget nodes x i × IsRooted i) same
        (
          record {
            same_node = refl;
            same_project = refl;
            place = inl (refl, refl);
            outside = λ m. m;
            deep = refl;
          },
          inl refl,
        )

  below-IsTarget :
      (q : Codebook)
      → Member q nodes
      → (q.id == x.id) ≡ false
      → is_directory q ≡ true
      → q.scope ≡ x.scope
      → q.project_id ≡ x.project_id
      → q.tenant_id ≡ x.tenant_id
      → has_prefix q.path_ids (path_below x) ≡ false
      → IsTarget nodes x (below x q)
  unfolding to_sort_item child_path_ids
  below-IsTarget q m other d scope project tenant apart = record {
    same_node = refl;
    same_project = refl;
    place = inr (q, m, d, refl, refl, sym scope, sym project, sym tenant);
    outside = λ h. elim (Member-snoc q.path_ids q.id x.id h) [
      | inl above ↦ let hit = Member-below nodes tree x q there m above in absurd (ground arith)
      | inr e ↦
          absurd
            (let f = subst (λ i. (i == x.id) ≡ false) (sym e) other in ground (arith, ==-self x.id))
    ];
    deep =
        ap (λ d. d +ℤ pos 1) (tree.depths q m)
        ∙ one_deeper (length q.path_ids)
        ∙ ap pos (sym (length-snoc q.path_ids q.id));
  }

  pub resolve-below :
      (q : Codebook) (item : CodebookSortItem)
      → Member q nodes
      → q.id ≢ 0
      → resolve_move_target x (some q) ≡ ok item
      → IsTarget nodes x item × IsRooted item
  unfolding resolve_move_target to_sort_item child_path_ids
  resolve-below q item m positive h =
      let a = require-ok _ _ item h in
      let b = require-ok _ _ item a.1 in
      let c = require-ok _ _ item b.1 in
      let d = require-ok _ _ item c.1 in
      let e = require-ok _ _ item d.1 in
      let f = require-ok _ _ item e.1 in
      let same : below x q ≡ item = cc (f.1) in
      subst (λ i. IsTarget nodes x i × IsRooted i) same
        (
          below-IsTarget q m (not-true _ a.0) b.0 (same_scope-eq q.scope x.scope c.0)
              (==→eq _ _ d.0) (==→eq _ _ e.0) (not-true _ f.0),
          inr positive,
        )

  -- A node that is already in the directory has its place there.
  pub child-IsTarget :
      (target item : CodebookSortItem) (c : Codebook)
      → IsTarget nodes x target
      → IsRooted target
      → Member c nodes
      → c.project_id ≡ x.project_id
      → c.parent_id ≡ target.parent_id
      → c.scope ≡ x.scope
      → item.id ≡ c.id
      → IsTarget nodes c (into_target x target item)
  child-IsTarget target item c t rooted m project parent scope named = elim t.place [
    | inl root ↦ record {
      same_node = named;
      same_project = sym project;
      place = inl root;
      outside = λ h. subst (λ p. Member item.id p) root.1 h;
      deep = t.deep;
    }
    | inr (q, mq, d, at, path, s, p, tenant) ↦ elim (tree.placed c m) [
      | inl root ↦ absurd (elim rooted [
        | inl e ↦ snoc-ne-nil q.path_ids q.id (sym path ∙ e)
        | inr e ↦ e (sym parent ∙ root.0)
      ])
      | inr (parent', mp, o) ↦
          let same = tree.unique parent' q mp mq (sym o.named ∙ parent ∙ at) in
          let o' = subst (λ z. ParentOf z c) same o in
          record {
            same_node = named;
            same_project = sym project;
            place = inr (q, mq, d, at, path, scope ∙ s, project ∙ p, o'.tenant);
            outside = λ h. not_below_itself nodes tree c m (
                subst (λ i. Member i c.path_ids) named
                  (subst (λ z. Member item.id z) (path ∙ sym o'.path) h));
            deep = t.deep;
          }
    ]
  ]
