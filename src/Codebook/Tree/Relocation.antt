-- ===== src/Codebook/Tree/Relocation.antt =====
-- Moving one node of a tree with all that lies below it leaves a tree.
use etask.Base.{
  ℕ, ◌≡◌, ◌≢◌, ◌⊎◌, inl, inr, refl, sym, ap, ◌∙◌, subst, map, arith, true, false, List, [], ◌∷◌,
  ◌++◌, length, Member, Bool-cases, pos, sub_ℤ, ◌+ℤ◌, ◌==◌, ==→eq,
}
use etask.Domain.Codebook.{Codebook, CodebookSortItem}
use etask.Domain.Codebook.Checks.{is_directory, has_prefix}
use etask.Codebook.Sorting.{replace_prefix}
use etask.Codebook.Tree.{ParentOf, Placed, IsTree}
use etask.Codebook.Tree.Paths.{
  has_prefix-snoc, has_prefix-Member, has_prefix_self, has_prefix-grow, snoc-Member,
  replace_prefix-snoc, replace_prefix_self, depth-replace_prefix,
}

-- A place for the node `x`: at the root, or in a directory of the same space, and not below itself.
pub record IsTarget (nodes : List Codebook) (x : Codebook) (item : CodebookSortItem) : Type 0 where
  pub same_node : item.id ≡ x.id
  pub same_project : item.project_id ≡ x.project_id
  pub place :
      ((item.parent_id ≡ 0) × (item.path_ids ≡ []))
      ⊎ ((q : Codebook) × Member q nodes
          × (is_directory q ≡ true)
          × (item.parent_id ≡ q.id)
          × (item.path_ids ≡ q.path_ids ++ (q.id ∷ []))
          × (x.scope ≡ q.scope)
          × (x.project_id ≡ q.project_id)
          × (x.tenant_id ≡ q.tenant_id))
  pub outside : Member item.id item.path_ids → ⊥
  pub deep : item.depth ≡ pos (length item.path_ids)

abbrev pub path_below : Codebook → List ℕ
path_below x = x.path_ids ++ (x.id ∷ [])

-- How a move of `x` changes the rows.
pub record Relocates (nodes : List Codebook) (x : Codebook) (item : CodebookSortItem)
    (g : Codebook → Codebook) : Type 0 where
  pub id : (n : Codebook) → (g n).id ≡ n.id
  pub kind : (n : Codebook) → is_directory (g n) ≡ is_directory n
  pub scope : (n : Codebook) → (g n).scope ≡ n.scope
  pub tenant : (n : Codebook) → (g n).tenant_id ≡ n.tenant_id
  pub project : (n : Codebook) → Member n nodes → (g n).project_id ≡ n.project_id
  pub self_path : (g x).path_ids ≡ item.path_ids
  pub self_depth : (g x).depth ≡ item.depth
  pub self_parent : (g x).parent_id ≡ item.parent_id
  pub other_parent : (n : Codebook) → Member n nodes → n.id ≢ x.id → (g n).parent_id ≡ n.parent_id
  pub carried_path :
      (n : Codebook)
      → Member n nodes
      → n.id ≢ x.id
      → has_prefix n.path_ids (path_below x) ≡ true
      → (g n).path_ids ≡ replace_prefix (path_below x) (item.path_ids ++ (x.id ∷ [])) n.path_ids
  pub carried_depth :
      (n : Codebook)
      → Member n nodes
      → n.id ≢ x.id
      → has_prefix n.path_ids (path_below x) ≡ true
      → (g n).depth ≡ n.depth +ℤ sub_ℤ item.depth x.depth
  pub other_path :
      (n : Codebook)
      → Member n nodes
      → n.id ≢ x.id
      → has_prefix n.path_ids (path_below x) ≡ false
      → (g n).path_ids ≡ n.path_ids
  pub other_depth :
      (n : Codebook)
      → Member n nodes
      → n.id ≢ x.id
      → has_prefix n.path_ids (path_below x) ≡ false
      → (g n).depth ≡ n.depth

pub Member-map :
    {A B : Type 0} (f : A → B) (a : A) (xs : List A) → Member a xs → Member (f a) (map f xs)
Member-map f a [] m = m
Member-map f a (x ∷ xs) (inl e) = inl (ap f e)
Member-map f a (x ∷ xs) (inr m) = inr (Member-map f a xs m)

pub map-Member :
    {A B : Type 0} (f : A → B) (b : B) (xs : List A)
    → Member b (map f xs)
    → (a : A) × Member a xs × (b ≡ f a)
map-Member f b [] m = elim m [ ]
map-Member f b (x ∷ xs) (inl e) = (x, inl refl, e)
map-Member f b (x ∷ xs) (inr m) = let r = map-Member f b xs m in (r.0, inr r.1, r.2)

pub id-cases : (a b : ℕ) → (a ≡ b) ⊎ (a ≢ b)
id-cases a b = elim (Bool-cases (a == b)) [
  | inl e ↦ inl (==→eq a b e)
  | inr e ↦ inr (λ same. absurd (ground arith))
]

module _ (nodes : List Codebook) (tree : IsTree nodes) (x : Codebook) (there : Member x nodes)
    (item : CodebookSortItem) (target : IsTarget nodes x item) (g : Codebook → Codebook)
    (r : Relocates nodes x item g) where
  -- a node that neither is the moved one nor lies below it
  pub untouched :
      (q : Codebook)
      → Member q nodes
      → (Member x.id (path_below q) → ⊥)
      → ((g q).path_ids ≡ q.path_ids) × (q.id ≢ x.id)
  untouched q m away =
      let other : q.id ≢ x.id = λ e. away (snoc-Member q.path_ids q.id x.id (inr (sym e))) in
      (
        elim (Bool-cases (has_prefix q.path_ids (path_below x))) [
          | inl e ↦ absurd (
              away (
                snoc-Member q.path_ids q.id x.id
                  (inl (has_prefix-Member x.path_ids q.path_ids x.id e))))
          | inr e ↦ r.other_path q m other e
        ],
        other,
      )

  -- What stays the same between a node and its parent.
  below_still :
      (p n : Codebook)
      → Member p nodes
      → Member n nodes
      → ParentOf p n
      → (g n).parent_id ≡ n.parent_id
      → (g n).path_ids ≡ (g p).path_ids ++ (p.id ∷ [])
      → Placed (map g nodes) (g n)
  below_still p n mp mn o parent path = inr (
    g p,
    Member-map g p nodes mp,
    record {
      holds_nodes = r.kind p ∙ o.holds_nodes;
      named = parent ∙ o.named ∙ sym (r.id p);
      path = path ∙ ap (λ i. (g p).path_ids ++ (i ∷ [])) (sym (r.id p));
      scope = r.scope n ∙ o.scope ∙ sym (r.scope p);
      project = r.project n mn ∙ o.project ∙ sym (r.project p mp);
      tenant = r.tenant n ∙ o.tenant ∙ sym (r.tenant p);
    },
  )

  place_below :
      (q : Codebook)
      → Member q nodes
      → is_directory q ≡ true
      → item.parent_id ≡ q.id
      → item.path_ids ≡ path_below q
      → x.scope ≡ q.scope
      → x.project_id ≡ q.project_id
      → x.tenant_id ≡ q.tenant_id
      → Placed (map g nodes) (g x)
  place_below q m d named path scope project tenant =
      let away : Member x.id (path_below q) → ⊥ = λ h. target.outside (
        subst (λ i. Member i item.path_ids) (sym target.same_node)
          (subst (λ p. Member x.id p) (sym path) h)) in
      let still = untouched q m away in
      inr (
        g q,
        Member-map g q nodes m,
        record {
          holds_nodes = r.kind q ∙ d;
          named = r.self_parent ∙ named ∙ sym (r.id q);
          path = r.self_path ∙ path ∙ (rw (still.0, r.id q) refl);
          scope = r.scope x ∙ scope ∙ sym (r.scope q);
          project = r.project x there ∙ project ∙ sym (r.project q m);
          tenant = r.tenant x ∙ tenant ∙ sym (r.tenant q);
        },
      )

  -- the place of the moved node itself
  place_self : Placed (map g nodes) (g x)
  place_self = elim target.place [
    | inl root ↦ inl (r.self_parent ∙ root.0, r.self_path ∙ root.1)
    | inr (q, m, d, named, path, scope, project, tenant) ↦
        place_below q m d named path scope project tenant
  ]

  -- a child of the moved node
  place_child :
      (n : Codebook) → Member n nodes → n.id ≢ x.id → ParentOf x n → Placed (map g nodes) (g n)
  place_child n m other o =
      let inside : has_prefix n.path_ids (path_below x) ≡ true =
        subst (λ p. has_prefix p (path_below x) ≡ true) (sym o.path)
          (has_prefix_self (path_below x)) in
      below_still x n there m o (r.other_parent n m other) (
        r.carried_path n m other inside
        ∙ ap (replace_prefix (path_below x) (item.path_ids ++ (x.id ∷ []))) o.path
        ∙ replace_prefix_self (path_below x) (item.path_ids ++ (x.id ∷ []))
        ∙ ap (λ p. p ++ (x.id ∷ [])) (sym r.self_path))

  outside_too :
      (p n : Codebook)
      → p.id ≢ x.id
      → ParentOf p n
      → has_prefix p.path_ids (path_below x) ≡ false
      → has_prefix n.path_ids (path_below x) ≡ false
  outside_too p n other o e = elim (Bool-cases (has_prefix n.path_ids (path_below x))) [
    | inl inside ↦
        elim (has_prefix-snoc x.path_ids p.path_ids x.id p.id
          (subst (λ z. has_prefix z (path_below x) ≡ true) o.path inside)) [
            | inl h ↦ absurd (ground arith)
            | inr h ↦ absurd (other h.1)
          ]
    | inr h ↦ h
  ]

  -- a child of another node, which is carried along or not
  place_grandchild :
      (p n : Codebook)
      → Member p nodes
      → Member n nodes
      → p.id ≢ x.id
      → n.id ≢ x.id
      → ParentOf p n
      → Placed (map g nodes) (g n)
  place_grandchild p n mp m other_p other o =
      elim (Bool-cases (has_prefix p.path_ids (path_below x))) [
        | inl e ↦
            let inside : has_prefix n.path_ids (path_below x) ≡ true =
              subst (λ z. has_prefix z (path_below x) ≡ true) (sym o.path)
                (has_prefix-grow p.path_ids (path_below x) p.id e) in
            below_still p n mp m o (r.other_parent n m other) (
              r.carried_path n m other inside
              ∙ ap (replace_prefix (path_below x) (item.path_ids ++ (x.id ∷ []))) o.path
              ∙ replace_prefix-snoc (path_below x) (item.path_ids ++ (x.id ∷ [])) p.path_ids p.id e
              ∙ ap (λ z. z ++ (p.id ∷ [])) (sym (r.carried_path p mp other_p e)))
        | inr e ↦ below_still p n mp m o (r.other_parent n m other) (
            r.other_path n m other (outside_too p n other_p o e)
            ∙ o.path
            ∙ ap (λ z. z ++ (p.id ∷ [])) (sym (r.other_path p mp other_p e)))
      ]

  place_other : (n : Codebook) → Member n nodes → n.id ≢ x.id → Placed (map g nodes) (g n)
  place_other n m other = elim (tree.placed n m) [
    | inl root ↦ elim (Bool-cases (has_prefix n.path_ids (path_below x))) [
      | inl e ↦
          absurd
            (subst (λ p. Member x.id p) root.1 (has_prefix-Member x.path_ids n.path_ids x.id e))
      | inr e ↦ inl (r.other_parent n m other ∙ root.0, r.other_path n m other e ∙ root.1)
    ]
    | inr (p, mp, o) ↦ elim (id-cases p.id x.id) [
      | inl same ↦
          place_child n m other (subst (λ z. ParentOf z n) (tree.unique p x mp there same) o)
      | inr other_p ↦ place_grandchild p n mp m other_p other o
    ]
  ]

  carried_depths :
      (n : Codebook)
      → Member n nodes
      → n.id ≢ x.id
      → has_prefix n.path_ids (path_below x) ≡ true
      → (g n).depth ≡ pos (length (g n).path_ids)
  carried_depths n m other e =
      r.carried_depth n m other e
      ∙ (rw (tree.depths n m, tree.depths x there, target.deep)
          (depth-replace_prefix x.path_ids item.path_ids n.path_ids x.id e))
      ∙ ap (λ p. pos (length p)) (sym (r.carried_path n m other e))

  depth_of : (n : Codebook) → Member n nodes → (g n).depth ≡ pos (length (g n).path_ids)
  depth_of n m = elim (id-cases n.id x.id) [
    | inl same ↦
        subst (λ z. (g z).depth ≡ pos (length (g z).path_ids)) (sym (tree.unique n x m there same))
          (r.self_depth ∙ target.deep ∙ ap (λ p. pos (length p)) (sym r.self_path))
    | inr other ↦ elim (Bool-cases (has_prefix n.path_ids (path_below x))) [
      | inl e ↦ carried_depths n m other e
      | inr e ↦
          r.other_depth n m other e
          ∙ tree.depths n m
          ∙ ap (λ p. pos (length p)) (sym (r.other_path n m other e))
    ]
  ]

  place_any : (n : Codebook) → Member n nodes → Placed (map g nodes) (g n)
  place_any n m = elim (id-cases n.id x.id) [
    | inl same ↦
        subst (λ z. Placed (map g nodes) (g z)) (sym (tree.unique n x m there same)) place_self
    | inr other ↦ place_other n m other
  ]

  pub map-IsTree : IsTree (map g nodes)
  map-IsTree = record {
    placed = λ n m.
        let (a, ma, e) = map-Member g n nodes m in
        subst (λ z. Placed (map g nodes) z) (sym e) (place_any a ma);
    depths = λ n m.
        let (a, ma, e) = map-Member g n nodes m in
        subst (λ z. z.depth ≡ pos (length z.path_ids)) (sym e) (depth_of a ma);
    unique = λ a b ma mb same.
        let (a', ma', ea) = map-Member g a nodes ma in
        let (b', mb', eb) = map-Member g b nodes mb in
        ea
        ∙ ap g (
            tree.unique a' b' ma' mb'
              (sym (r.id a') ∙ ap (λ z. z.id) (sym ea) ∙ same ∙ ap (λ z. z.id) eb ∙ r.id b'))
        ∙ sym eb;
  }
