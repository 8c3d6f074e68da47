-- ===== src/Codebook/Tree/Sorts.antt =====
-- internal/service/codebook/codebook.go: `Sort` keeps the trees, whatever is dragged where, and
-- wherever it fails.
use etask.Base.{
  ℕ, zero, suc, ◌≡◌, ◌⊎◌, inl, inr, refl, sym, ap, ◌∙◌, subst, map, arith, Bool, true, false, not,
  Option, none, some, List, [], ◌∷◌, ℤ, Member, ◌==◌, ==→eq, if◌then◌else◌, Bool-cases,
}
use etask.Errs.{ok}
use etask.Sorter.{
  ◌>>=◌ as ◌>>=?◌, ReorderPlan, move_to, rebalance, insert_at, map_from, remove_dragged,
  insert_elem, calculate_sort_key, needs_rebalance, generate_rebalance_items, plan_for,
  plan_reorder,
}
use etask.Domain.Codebook.{Codebook, CodebookSortItem}
use etask.Domain.Codebook.Checks.{resolve_move_target, to_sort_item, require}
use etask.Store.{World}
use etask.Store.Action.{Action, fail, throw, ◌>>=◌}
use etask.Store.Obeys.{Obeys, Obeys-bind, Obeys-bind_at, Obeys-throw, Obeys-if}
use etask.Store.Inversion.{bind-ok}
use etask.Codebook.Table.{get_node, list_children_by_scope, is_child_in}
use etask.Codebook.Service.{
  sort, resolve_target, apply_plan, into_target, node_sorter, item_sortable, validate_write_scope,
  validate_owner,
}
use etask.Codebook.Tree.{IsTree}
use etask.Codebook.Tree.Listing.{by_scope-known, list_by_scope-SameNodes}
use etask.Codebook.Tree.Relocation.{IsTarget, map-Member}
use etask.Codebook.Tree.Batches.{Proper, AllProper, update_sort-IsTree, batch_update_sort-IsTree}
use etask.Codebook.Tree.Reading.{
  SameNodes, SameNodes-Evolution, KeepsTree-Evolution, get_node-SameNodes, validate_owner-SameNodes,
  validate_write_scope-SameNodes,
}
use etask.Codebook.Tree.Moves.{get_node-ok}
use etask.Codebook.Tree.Targets.{
  IsRooted, resolve-root, resolve-below, child-IsTarget, same_scope-eq,
}

insert_at-Member :
    {A : Type 0} (i : ℕ) (a b : A) (xs : List A)
    → Member b (insert_at i a xs)
    → (b ≡ a) ⊎ Member b xs
insert_at-Member zero a b xs m = m
insert_at-Member (suc i) a b [] m = m
insert_at-Member (suc i) a b (x ∷ xs) (inl e) = inr (inl e)
insert_at-Member (suc i) a b (x ∷ xs) (inr m) = elim (insert_at-Member i a b xs m) [
  | inl e ↦ inl e
  | inr r ↦ inr (inr r)
]

remove_dragged-Member :
    (xs : List CodebookSortItem) (i : ℕ) (b : CodebookSortItem)
    → Member b (remove_dragged xs i)
    → Member b xs
unfolding remove_dragged
remove_dragged-Member [] i b m = m
remove_dragged-Member (x ∷ xs) i b m = elim (Bool-cases (x.id == i)) [
  | inl e ↦ inr (ground arith)
  | inr e ↦ ground (arith, remove_dragged-Member xs i b)
]

-- the rows of a plan that numbers all of them anew
items_known :
    (i : ℕ) (xs : List CodebookSortItem) (item : CodebookSortItem)
    → Member item (map_from node_sorter.convert i xs)
    → (e : CodebookSortItem) × Member e xs × (item.id ≡ e.id)
items_known i [] item m = elim m [ ]
items_known i (x ∷ xs) item (inl e) = (x, inl refl, ap (λ z. z.id) e)
items_known i (x ∷ xs) item (inr m) = let r = items_known (suc i) xs item m in (r.0, inr r.1, r.2)

bind-some :
    {A B : Type 0} (o : Option A) (f : A → Option B) (b : B)
    → (o >>=? f) ≡ some b
    → (a : A) × (o ≡ some a) × (f a ≡ some b)
bind-some none f b h = absurd (ground arith)
bind-some (some a) f b h = (a, refl, h)

planned :
    (xs : List CodebookSortItem) (dragged : CodebookSortItem) (position key : ℤ) (full : Bool)
    (items : List CodebookSortItem)
    → plan_for node_sorter xs dragged position key full ≡ rebalance items
    → items ≡ generate_rebalance_items node_sorter (insert_elem xs dragged position)
planned xs dragged position key true items h = cc
planned xs dragged position key false items h = absurd (ground arith)

plan_items :
    (xs : List CodebookSortItem) (dragged : CodebookSortItem) (position : ℤ)
    (items : List CodebookSortItem)
    → plan_reorder node_sorter xs dragged position ≡ some (rebalance items)
    → items
      ≡ generate_rebalance_items node_sorter
          (insert_elem (remove_dragged xs dragged.id) dragged position)
unfolding plan_reorder
plan_items xs dragged position items h =
    let remaining = remove_dragged xs dragged.id in
    let plan = plan_for node_sorter remaining dragged position in
    let judge = needs_rebalance remaining position in
    let (key, _, e) =
      bind-some (calculate_sort_key node_sorter.index_gap remaining position)
        (λ k. judge k >>=? λ full. some (plan k full)) (rebalance items) h in
    let (full, _, f) = bind-some (judge key) (λ b. some (plan key b)) (rebalance items) e in
    planned remaining dragged position key full items (cc f)

module _ (nodes : List Codebook) (tree : IsTree nodes) (x : Codebook) (there : Member x nodes)
    (target : CodebookSortItem) (proper : IsTarget nodes x target) (rooted : IsRooted target) where
  abbrev IsChild : Codebook → Type 0
  IsChild c = Member c nodes × (is_child_in x.project_id target.parent_id x.scope c ≡ true)

  dragged-Proper :
      (item : CodebookSortItem) → item.id ≡ x.id → Proper nodes (into_target x target item)
  dragged-Proper item named y m e =
      let same = tree.unique y x m there (e ∙ named) in
      subst (λ z. IsTarget nodes z (into_target x target item)) (sym same)
        (record {
          same_node = named;
          same_project = refl;
          place = proper.place;
          outside = λ h.
              proper.outside
                (subst (λ i. Member i target.path_ids) (named ∙ sym proper.same_node) h);
          deep = proper.deep;
        })

  child-Proper :
      (c : Codebook) (item : CodebookSortItem)
      → IsChild c
      → item.id ≡ c.id
      → Proper nodes (into_target x target item)
  child-Proper c item (mc, in_place) named y m e =
      let same = tree.unique y c m mc (e ∙ named) in
      subst (λ z. IsTarget nodes z (into_target x target item)) (sym same)
        (child-IsTarget nodes tree x there target item c proper rooted mc
          (==→eq c.project_id x.project_id (ground arith))
          (==→eq c.parent_id target.parent_id (ground arith))
          (same_scope-eq c.scope x.scope (ground arith)) named)

  all_into :
      (items : List CodebookSortItem)
      → ((item : CodebookSortItem) → Member item items → Proper nodes (into_target x target item))
      → AllProper nodes target.path_ids (map (into_target x target) items)
  all_into [] h = tt
  all_into (i ∷ items) h = (h i (inl refl), refl, all_into items (λ j m. h j (inr m)))

  plan-AllProper :
      (children : List Codebook) (position : ℤ) (items : List CodebookSortItem)
      → ((c : Codebook) → Member c children → IsChild c)
      → plan_reorder node_sorter (map to_sort_item children) target position
        ≡ some (rebalance items)
      → AllProper nodes target.path_ids (map (into_target x target) items)
  unfolding insert_elem generate_rebalance_items to_sort_item
  plan-AllProper children position items known h =
      let e = plan_items (map to_sort_item children) target position items h in
      all_into items λ item m.
        let (row, mr, named) = items_known 0 _ item (subst (λ z. Member item z) e m) in
        elim (insert_at-Member _ target row _ mr) [
          | inl same ↦ dragged-Proper item (named ∙ ap (λ z. z.id) same ∙ proper.same_node)
          | inr rest ↦
              let found = remove_dragged-Member (map to_sort_item children) target.id row rest in
              let (c, mc, is) = map-Member to_sort_item row children found in
              child-Proper c item (known c mc) (named ∙ ap (λ z. z.id) is)
        ]

  apply_plan-IsTree :
      (children : List Codebook) (position : ℤ) (w : World)
      → w.library.nodes ≡ nodes
      → ((c : Codebook) → Member c children → IsChild c)
      → (plan : Option (ReorderPlan CodebookSortItem))
      → plan_reorder node_sorter (map to_sort_item children) target position ≡ plan
      → IsTree (apply_plan x target plan w).1.library.nodes
  unfolding fail
  apply_plan-IsTree children position w at known none h = subst IsTree (sym at) tree
  apply_plan-IsTree children position w at known (some (rebalance items)) h =
      batch_update_sort-IsTree target.path_ids (map (into_target x target) items) w
        (subst IsTree (sym at) tree)
        (subst (λ ns. AllProper ns target.path_ids (map (into_target x target) items)) (sym at)
          (plan-AllProper children position items known h))
  apply_plan-IsTree children position w at known (some (move_to key)) h =
      update_sort-IsTree (record target { sort_no = key }) w (subst IsTree (sym at) tree)
        (subst (λ ns. Proper ns (record target { sort_no = key })) (sym at)
          (λ y m e.
            subst (λ z. IsTarget nodes z (record target { sort_no = key }))
              (sym (tree.unique y x m there (e ∙ proper.same_node)))
              (record {
                same_node = proper.same_node;
                same_project = proper.same_project;
                place = proper.place;
                outside = proper.outside;
                deep = proper.deep;
              })))

-- What follows a read of the tables: it sees the same nodes.
after_read :
    {A B : Type 0} (m : Action A) (f : A → Action B) (w : World)
    → Obeys SameNodes m
    → IsTree w.library.nodes
    → ((a : A) (v : World)
        → (m w).0 ≡ ok a
        → v.library.nodes ≡ w.library.nodes
        → IsTree (f a v).1.library.nodes)
    → IsTree ((m >>= f) w).1.library.nodes
after_read m f w same tree h =
    Obeys-bind_at KeepsTree-Evolution m f w (λ t. subst IsTree (sym (same.at w)) t)
      (λ a e _. h a (m w).1 e (same.at w)) tree

-- where the target is resolved
resolve_target-ok :
    (x : Codebook) (parent_id : ℕ) (w : World) (target : CodebookSortItem)
    → IsTree w.library.nodes
    → Member x w.library.nodes
    → (resolve_target x parent_id w).0 ≡ ok target
    → IsTarget w.library.nodes x target × IsRooted target
unfolding resolve_target throw
resolve_target-ok x parent_id w target tree there h =
    let none_case = throw (resolve_move_target x none) in
    let some_case = get_node parent_id >>= λ parent. throw (resolve_move_target x (some parent)) in
    let branch = λ (b : Bool). (if b then none_case else some_case) w in
    elim (Bool-cases (parent_id == 0)) [
      | inl e ↦
          resolve-root w.library.nodes tree x there target (ap (λ b. (branch b).0) (sym e) ∙ h)
      | inr e ↦
          let (q, first, at) =
            bind-ok (get_node parent_id) (λ parent. throw (resolve_move_target x (some parent))) w
              target (ap (λ b. (branch b).0) (sym e) ∙ h) in
          let (_, m, _, named, _) = get_node-ok parent_id w q first in
          resolve-below w.library.nodes tree x there q target m
            (λ zero_id. absurd (let z = sym named ∙ zero_id in ground arith))
            (ap (λ r. r.0) (sym at) ∙ ap (λ b. (branch b).0) (sym e) ∙ h)
    ]

resolve_target-SameNodes :
    (x : Codebook) (parent_id : ℕ) → Obeys SameNodes (resolve_target x parent_id)
unfolding resolve_target
resolve_target-SameNodes x parent_id =
    Obeys-if (parent_id == 0) _ _ (λ _. Obeys-throw SameNodes-Evolution _)
      (λ _.
        Obeys-bind SameNodes-Evolution _ _ (get_node-SameNodes parent_id)
          (λ q. Obeys-throw SameNodes-Evolution _))

-- The drag of a node that has been read, up to the plan and its application.
drag-IsTree :
    (x : Codebook) (parent_id : ℕ) (position : ℤ) (w : World)
    → IsTree w.library.nodes
    → Member x w.library.nodes
    → IsTree
        ((resolve_target x parent_id >>= λ target.
            list_children_by_scope x.project_id target.parent_id x.scope >>= λ children.
            apply_plan x target
              (plan_reorder node_sorter (map to_sort_item children) target position))
          w).1.library.nodes
drag-IsTree x parent_id position w tree there =
    after_read (resolve_target x parent_id) _ w (resolve_target-SameNodes x parent_id) tree
      λ target w1 resolved n1.
        let (proper, rooted) = resolve_target-ok x parent_id w target tree there resolved in
        after_read (list_children_by_scope x.project_id target.parent_id x.scope) _ w1
          (list_by_scope-SameNodes x.project_id target.parent_id x.scope)
          (subst IsTree (sym n1) tree)
          λ children w2 listed n2.
            apply_plan-IsTree w.library.nodes tree x there target proper rooted children position w2
              (n2 ∙ n1)
              (λ c m.
                let known =
                  by_scope-known x target w1 children (subst IsTree (sym n1) tree)
                    (subst (λ ns. IsTarget ns x target) (sym n1) proper) listed c m in
                (subst (λ ns. Member c ns) n1 known.0, known.1))
              (plan_reorder node_sorter (map to_sort_item children) target position) refl

-- In every table whose nodes form trees they still do after a drag, whatever node is dragged to whatever
-- directory and position, by whatever tenant, and wherever the operation is refused or fails: the paths and depths of all nodes below the dragged one are those of
-- their new places, and no node ever lies below itself.
pub sort-IsTree :
    (i parent_id : ℕ) (position : ℤ) (w : World)
    → IsTree w.library.nodes
    → IsTree (sort i parent_id position w).1.library.nodes
unfolding sort
sort-IsTree i parent_id position w tree =
    after_read (throw (require (not (i == 0)))) _ w (Obeys-throw SameNodes-Evolution _) tree
      λ _ w1 _ n1.
        after_read (get_node i) _ w1 (get_node-SameNodes i) (subst IsTree (sym n1) tree)
          λ x w2 got n2.
            after_read (validate_write_scope x.scope) _ w2 (validate_write_scope-SameNodes x.scope)
              (subst IsTree (sym (n2 ∙ n1)) tree)
              λ _ w3 _ n3.
                after_read (validate_owner x) _ w3 (validate_owner-SameNodes x)
                  (subst IsTree (sym (n3 ∙ n2 ∙ n1)) tree)
                  λ _ w4 _ n4.
                    let read = get_node-ok i w1 x got in
                    drag-IsTree x parent_id position w4
                      (subst IsTree (sym (n4 ∙ n3 ∙ n2 ∙ n1)) tree)
                      (subst (λ ns. Member x ns) (sym (n4 ∙ n3 ∙ n2)) read.1)
