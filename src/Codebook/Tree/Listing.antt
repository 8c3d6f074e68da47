-- ===== src/Codebook/Tree/Listing.antt =====
-- internal/repository/codebook.go, `ListChildrenByScope`: the children that are listed for a drag are
-- those of the target directory, in the project of the dragged node.
use etask.Base.{
  insert_before, order_by, ℕ, ◌≡◌, ◌⊎◌, inl, inr, sym, ap, ◌∙◌, subst, arith, Bool, true, false,
  ◌&&◌, List, [], ◌∷◌, Member, ◌==◌, ==→eq, if◌then◌else◌, Bool-cases, keep_where, any_where,
  Member-keep_where,
}
use etask.Errs.{ok}
use etask.Domain.Codebook.{Codebook, CodebookScope, CodebookSortItem}
use etask.Domain.Codebook.Checks.{require, same_scope}
use etask.Store.{World}
use etask.Store.Action.{select, throw, gets, pure, ◌>>=◌, ◌>>◌}
use etask.Store.Obeys.{Obeys, Obeys-bind, Obeys-throw, Obeys-if, Obeys-pure}
use etask.Store.Inversion.{bind-ok, statement-ok}
use etask.Store.Reading.{ok-same}
use etask.Codebook.Table.{
  child_before, get_node, list_children_by_space, list_children_by_scope, is_child_in, reads_node,
  in_its_project, parent_project, fill_current_version_no, names_version,
}
use etask.Codebook.Service.{item_sortable}
use etask.Codebook.Tree.{IsTree}
use etask.Codebook.Tree.Relocation.{IsTarget}
use etask.Codebook.Tree.Reading.{
  SameNodes, SameNodes-Evolution, get_node-SameNodes, select-SameNodes,
}
use etask.Codebook.Tree.Moves.{get_node-ok}

insert_before-Member :
    {A : Type 0} (before : A → A → Bool) (b a : A) (xs : List A)
    → Member b (insert_before before a xs)
    → (b ≡ a) ⊎ Member b xs
insert_before-Member before b a [] m = m
insert_before-Member before b a (x ∷ xs) m = ground (arith, insert_before-Member before b a xs)

order_by-Member :
    {A : Type 0} (before : A → A → Bool) (b : A) (xs : List A)
    → Member b (order_by before xs)
    → Member b xs
order_by-Member before b [] m = m
order_by-Member before b (x ∷ xs) m =
    elim (insert_before-Member before b x (order_by before xs) m) [
      | inl e ↦ inl e
      | inr r ↦ inr (order_by-Member before b xs r)
    ]

-- The children that are listed are children.
list_children-known :
    (project parent : ℕ) (w : World) (scope : CodebookScope) (cs : List Codebook)
    → (list_children_by_space project parent scope w).0 ≡ ok cs
    → (c : Codebook) → Member c cs
    → Member c w.library.nodes × (is_child_in project parent scope c ≡ true)
unfolding list_children_by_space select gets
list_children-known project parent w scope cs h c m =
    let mine = λ (v : World) (c : Codebook). reads_node v c && is_child_in project parent scope c in
    let read = λ (v : World). order_by (child_before v) (keep_where (mine v) v.library.nodes) in
    let (rest, e) = statement-ok (gets read) w cs h in
    let v : World = record w { faults = rest } in
    let same : ok (read v) ≡ ok cs = ap (λ r. r.0) (sym e) ∙ h in
    let got : cs ≡ read v = cc in
    let listed = subst (λ z. Member c z) got m in
    let kept =
      Member-keep_where (mine v) c w.library.nodes
        (order_by-Member (child_before v) c (keep_where (mine v) w.library.nodes) listed) in
    let hit = kept.1 in (kept.0, ground arith)

list_children-SameNodes :
    (project parent : ℕ) (scope : CodebookScope)
    → Obeys SameNodes (list_children_by_space project parent scope)
unfolding list_children_by_space
list_children-SameNodes project parent scope = select-SameNodes _

in_its_project-SameNodes :
    (scope : CodebookScope) (q : Codebook) → Obeys SameNodes (in_its_project scope q)
in_its_project-SameNodes scope q =
    Obeys-bind SameNodes-Evolution _ _ (Obeys-throw SameNodes-Evolution _)
      (λ _. Obeys-pure SameNodes-Evolution q.project_id)

parent_project-SameNodes :
    (project parent : ℕ) (scope : CodebookScope)
    → Obeys SameNodes (parent_project project parent scope)
unfolding parent_project
parent_project-SameNodes project parent scope =
    Obeys-if (parent == 0) _ _ (λ _. Obeys-pure SameNodes-Evolution project)
      (λ _.
        Obeys-bind SameNodes-Evolution _ _ (get_node-SameNodes parent)
          (λ q. in_its_project-SameNodes scope q))

fill-SameNodes : (cs : List Codebook) → Obeys SameNodes (fill_current_version_no cs)
unfolding fill_current_version_no
fill-SameNodes cs =
    Obeys-if (any_where names_version cs) _ _
      (λ _.
        Obeys-bind SameNodes-Evolution _ _ (select-SameNodes _)
          (λ _. Obeys-pure SameNodes-Evolution cs))
      (λ _. Obeys-pure SameNodes-Evolution cs)

pub list_by_scope-SameNodes :
    (project parent : ℕ) (scope : CodebookScope)
    → Obeys SameNodes (list_children_by_scope project parent scope)
unfolding list_children_by_scope
list_by_scope-SameNodes project parent scope =
    Obeys-bind SameNodes-Evolution _ _ (parent_project-SameNodes project parent scope) (λ p.
      Obeys-bind SameNodes-Evolution _ _ (list_children-SameNodes p parent scope) fill-SameNodes)

fill-same : (cs ds : List Codebook) (w : World) → (fill_current_version_no cs w).0 ≡ ok ds → ds ≡ cs
unfolding fill_current_version_no pure
fill-same cs ds w h =
    let read = select (λ (v : World). v.library.code_versions) >> pure cs in
    let branch = λ (b : Bool). (if b then read else pure cs) w in
    elim (Bool-cases (any_where names_version cs)) [
      | inl e ↦
          let (_, _, at) =
            bind-ok (select (λ (v : World). v.library.code_versions)) (λ _. pure cs) w ds
              (ap (λ b. (branch b).0) (sym e) ∙ h) in
          sym (ok-same cs ds (ap (λ r. r.0) (sym at) ∙ ap (λ b. (branch b).0) (sym e) ∙ h))
      | inr e ↦ sym (ok-same cs ds (ap (λ b. (branch b).0) (sym e) ∙ h))
    ]

-- the directory that is read again
parent_project-ok :
    (project parent p : ℕ) (scope : CodebookScope) (w : World)
    → (parent_project project parent scope w).0 ≡ ok p
    → ((parent ≡ 0) × (p ≡ project))
      ⊎ ((q : Codebook) × Member q w.library.nodes
          × (q.id ≡ parent)
          × ((parent == 0) ≡ false)
          × (p ≡ q.project_id))
unfolding parent_project pure
parent_project-ok project parent p scope w h =
    let branch =
      λ (b : Bool). (if b then pure project else (get_node parent >>= in_its_project scope)) w in
    elim (Bool-cases (parent == 0)) [
      | inl e ↦ inl (==→eq parent 0 e, sym (ok-same project p (ap (λ b. (branch b).0) (sym e) ∙ h)))
      | inr e ↦
          let h1 = ap (λ b. (branch b).0) (sym e) ∙ h in
          let (q, first, at) = bind-ok (get_node parent) (in_its_project scope) w p h1 in
          let (_, m, _, named, _) = get_node-ok parent w q first in
          let w1 = (get_node parent w).1 in
          let h2 = ap (λ r. r.0) (sym at) ∙ h1 in
          let (_, _, at2) =
            bind-ok (throw (require (same_scope q.scope scope))) (λ _. pure q.project_id) w1 p h2 in
          inr (q, m, named, e, sym (ok-same q.project_id p (ap (λ r. r.0) (sym at2) ∙ h2)))
    ]

-- the project of the directory is that of the dragged node
same_project :
    (x : Codebook) (target : CodebookSortItem) (p : ℕ) (w : World)
    → IsTree w.library.nodes
    → IsTarget w.library.nodes x target
    → (parent_project x.project_id target.parent_id x.scope w).0 ≡ ok p
    → p ≡ x.project_id
same_project x target p w tree proper h =
    elim (parent_project-ok x.project_id target.parent_id p x.scope w h) [
      | inl root ↦ root.1
      | inr (q, m, named, below, is) ↦ elim proper.place [
        | inl at_root ↦ absurd (let zero_id = at_root.0 in ground arith)
        | inr (q', m', _, of, _, _, projects, _) ↦
            is
            ∙ ap (λ (c : Codebook). c.project_id) (tree.unique q q' m m' (named ∙ of))
            ∙ sym projects
      ]
    ]

pub by_scope-known :
    (x : Codebook) (target : CodebookSortItem) (w : World) (cs : List Codebook)
    → IsTree w.library.nodes
    → IsTarget w.library.nodes x target
    → (list_children_by_scope x.project_id target.parent_id x.scope w).0 ≡ ok cs
    → (c : Codebook) → Member c cs
    → Member c w.library.nodes × (is_child_in x.project_id target.parent_id x.scope c ≡ true)
unfolding list_children_by_scope
by_scope-known x target w cs tree proper h c m =
    let of = parent_project x.project_id target.parent_id x.scope in
    let lists = λ (p : ℕ). list_children_by_space p target.parent_id x.scope in
    let (p, first, at) = bind-ok of (λ p. lists p >>= fill_current_version_no) w cs h in
    let w1 = (of w).1 in
    let h1 = ap (λ r. r.0) (sym at) ∙ h in
    let (ds, listed, at2) = bind-ok (lists p) fill_current_version_no w1 cs h1 in
    let filled = fill-same ds cs (lists p w1).1 (ap (λ r. r.0) (sym at2) ∙ h1) in
    let known =
      list_children-known p target.parent_id w1 x.scope ds listed c (subst (Member c) filled m) in
    let nodes_same = (parent_project-SameNodes x.project_id target.parent_id x.scope).at w in
    (
      subst (Member c) nodes_same known.0,
      subst (λ k. is_child_in k target.parent_id x.scope c ≡ true)
          (same_project x target p w tree proper first) known.1,
    )
