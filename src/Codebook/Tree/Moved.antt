-- ===== src/Codebook/Tree/Moved.antt =====
-- A move to a proper place keeps the trees.
use etask.Base.{
  ℕ, ◌≡◌, ◌≢◌, inl, inr, refl, sym, ap, ◌∙◌, subst, map, arith, true, false, ◌&&◌, List, [], ◌∷◌,
  ◌++◌, length, pos, sub_ℤ, ◌+ℤ◌, ◌==◌, ==→eq, ==-self, Bool-cases, keep_where, count_where, Member,
  Member-keep_where, count_where-Member,
}
use etask.Domain.Codebook.{Codebook, CodebookSortItem}
use etask.Domain.Codebook.Checks.{is_directory, is_directory_kind, has_prefix}
use etask.Store.{World}
use etask.Codebook.Table.{writes_node, reads_node, writable_node}
use etask.Codebook.Sorting.{moved, replace_prefix}
use etask.Codebook.Tree.{IsTree}
use etask.Codebook.Tree.Paths.{replace_prefix_same, same_path-eq, has_prefix-Member}
use etask.Codebook.Tree.Relocation.{
  IsTarget, Relocates, path_below, id-cases, Member-map, map-Member,
}
use etask.Codebook.Tree.Spaces.{InSpace-below}
use etask.Codebook.Tree.Effects.{change_row, row_after, map-map}
use etask.Codebook.Tree.Rows.{row_after-Kept, row_after-miss, row_after-hit, keep_where-Member}
use etask.Codebook.Tree.Moves.{first_written, stays, Written}

eq-false : (a b : ℕ) → a ≢ b → (a == b) ≡ false
eq-false a b h = elim (Bool-cases (a == b)) [ inl e ↦ absurd (h (==→eq a b e)) | inr e ↦ e ]

no_shift : (k a : ℕ) → pos k ≡ pos k +ℤ sub_ℤ (pos a) (pos a)
unfolding ◌+ℤ◌ sub_ℤ
no_shift k a = ground arith

module _ (w : World) (tree : IsTree w.library.nodes) (item : CodebookSortItem) (x : Codebook)
    (there : Member x w.library.nodes) (named : x.id ≡ item.id) (visible : reads_node w x ≡ true)
    (target : IsTarget w.library.nodes x item)
    (met : (count_where (writable_node item.id w) w.library.nodes == 0) ≡ false) where
  writes_x : writable_node item.id w x ≡ true
  writes_x =
      let (n, m, hit) = count_where-Member (writable_node item.id w) w.library.nodes met in
      let same = tree.unique n x m there (==→eq n.id item.id (ground arith) ∙ sym named) in
      subst (λ z. writable_node item.id w z ≡ true) same hit

  abbrev first : Codebook → Codebook
  first n = change_row (writable_node item.id w n) (moved item w.now) n

  first_self : first x ≡ moved item w.now x
  first_self = ap (λ b. change_row b (moved item w.now) x) writes_x

  first_other : (n : Codebook) → n.id ≢ x.id → first n ≡ n
  first_other n other =
      let miss : writable_node item.id w n ≡ false =
        (let e = eq-false n.id item.id (λ e. other (e ∙ sym named)) in ground arith) in
      ap (λ b. change_row b (moved item w.now) n) miss

  by_row :
      (P : Codebook → Codebook → Type 0) (n : Codebook)
      → P (moved item w.now n) n
      → P n n
      → P (first n) n
  by_row P n hit miss = elim (Bool-cases (writable_node item.id w n)) [
    | inl e ↦ subst (λ b. P (change_row b (moved item w.now) n) n) (sym e) hit
    | inr e ↦ subst (λ b. P (change_row b (moved item w.now) n) n) (sym e) miss
  ]

  -- the project of a moved row
  first_project : (n : Codebook) → Member n w.library.nodes → (first n).project_id ≡ n.project_id
  first_project n m = elim (id-cases n.id x.id) [
    | inl same ↦
        subst (λ z. (first z).project_id ≡ z.project_id) (sym (tree.unique n x m there same))
          (ap (λ z. z.project_id) first_self ∙ target.same_project)
    | inr other ↦ ap (λ z. z.project_id) (first_other n other)
  ]

  inside :
      (n : Codebook)
      → Member n w.library.nodes
      → has_prefix n.path_ids (path_below x) ≡ true
      → (reads_node w n ≡ true) × (writes_node w n ≡ true) × (is_directory x ≡ true)
  inside n m h =
      let s = InSpace-below w.library.nodes tree x there (length n.path_ids) n m (omega arith) h in
      let written : writes_node w x ≡ true = (let e = writes_x in ground arith) in
      (
        (λ i. w.library.may_read w.tenant (s.tenant i) (s.scope i)) ∙ visible,
        (λ i. w.library.may_write w.tenant (s.tenant i) (s.scope i)) ∙ written,
        s.directory,
      )

  -- where nothing has to be carried along
  stays_path :
      stays x item ≡ true
      → (n : Codebook) → Member n w.library.nodes
      → has_prefix n.path_ids (path_below x) ≡ true
      → x.path_ids ≡ item.path_ids
  stays_path s n m h =
      let d = (inside n m h).2 in same_path-eq x.path_ids item.path_ids (ground arith)

  first-Relocates : stays x item ≡ true → Relocates w.library.nodes x item first
  first-Relocates s = record {
    id = λ n. by_row (λ a b. a.id ≡ b.id) n refl refl;
    kind = λ n. by_row (λ a b. is_directory a ≡ is_directory b) n refl refl;
    scope = λ n. by_row (λ a b. a.scope ≡ b.scope) n refl refl;
    tenant = λ n. by_row (λ a b. a.tenant_id ≡ b.tenant_id) n refl refl;
    project = first_project;
    self_path = ap (λ z. z.path_ids) first_self;
    self_depth = ap (λ z. z.depth) first_self;
    self_parent = ap (λ z. z.parent_id) first_self;
    other_parent = λ n m other. ap (λ z. z.parent_id) (first_other n other);
    carried_path = λ n m other h.
        let same = stays_path s n m h in
        ap (λ z. z.path_ids) (first_other n other)
        ∙ sym (
            ap (λ p. replace_prefix (path_below x) (p ++ (x.id ∷ [])) n.path_ids) (sym same)
            ∙ replace_prefix_same (path_below x) n.path_ids h);
    carried_depth = λ n m other h.
        let same = stays_path s n m h in
        let level : x.depth ≡ item.depth =
          tree.depths x there ∙ ap (λ p. pos (length p)) same ∙ sym target.deep in
        ap (λ z. z.depth) (first_other n other)
        ∙ rw (sym level, tree.depths x there, tree.depths n m)
            (no_shift (length n.path_ids) (length x.path_ids));
    other_path = λ n m other h. ap (λ z. z.path_ids) (first_other n other);
    other_depth = λ n m other h. ap (λ z. z.depth) (first_other n other);
  }

  -- where the descendants are carried along
  abbrev before : List ℕ
  before = x.path_ids ++ (x.id ∷ [])

  abbrev behind : List ℕ
  behind = item.path_ids ++ (item.id ∷ [])

  abbrev carried_rows : List Codebook
  carried_rows =
      keep_where (λ c. reads_node w c && has_prefix c.path_ids before) (first_written w item)

  abbrev after : Codebook → Codebook
  after = row_after (writes_node w) before behind (sub_ℤ item.depth x.depth) w.now carried_rows

  -- every row that is carried along was one of the table, other than the moved one
  carried_from :
      (d : Codebook)
      → Member d carried_rows
      → Member d w.library.nodes × (d.id ≢ x.id) × (has_prefix d.path_ids before ≡ true)
  carried_from d m =
      let (found, hit) =
        Member-keep_where (λ c. reads_node w c && has_prefix c.path_ids before) d
          (first_written w item) m in
      let (n, mn, e) = map-Member first d w.library.nodes found in
      let prefixed : has_prefix d.path_ids before ≡ true = ground arith in
      elim (id-cases n.id x.id) [
        | inl same ↦
            let d_is : d ≡ moved item w.now x =
              e ∙ ap first (tree.unique n x mn there same) ∙ first_self in
            absurd (
              target.outside (
                subst (λ i. Member i item.path_ids) named
                  (has_prefix-Member x.path_ids item.path_ids x.id
                    (subst (λ z. has_prefix z.path_ids before ≡ true) d_is prefixed))))
        | inr other ↦
            let d_is : n ≡ d = sym (e ∙ first_other n other) in
            (
              subst (λ z. Member z w.library.nodes) d_is mn,
              subst (λ z. z.id ≢ x.id) d_is other,
              prefixed,
            )
      ]

  abbrev all : Codebook → Codebook
  all n = after (first n)

  all_self : all x ≡ moved item w.now x
  all_self =
      ap after first_self
      ∙ row_after-miss w before behind (sub_ℤ item.depth x.depth) w.now carried_rows
          (moved item w.now x) (λ d m. eq-false x.id d.id (λ e. (carried_from d m).1 (sym e)))

  -- the descendants with the id of a row are that row
  carried_same :
      (n d : Codebook) → Member n w.library.nodes → Member d carried_rows → n.id ≡ d.id → d ≡ n
  carried_same n d m md e = tree.unique d n (carried_from d md).0 m (sym e)

  no_clash :
      (n d : Codebook)
      → Member n w.library.nodes
      → Member d carried_rows
      → n.id ≡ d.id
      → has_prefix n.path_ids before ≡ false
      → ⊥
  no_clash n d m md e h =
      let hit =
        subst (λ z. has_prefix z.path_ids before ≡ true) (carried_same n d m md e)
          (carried_from d md).2 in
      ground arith

  all_outside :
      (n : Codebook)
      → Member n w.library.nodes
      → n.id ≢ x.id
      → has_prefix n.path_ids before ≡ false
      → all n ≡ n
  all_outside n m other h =
      ap after (first_other n other)
      ∙ row_after-miss w before behind (sub_ℤ item.depth x.depth) w.now carried_rows n
          (λ d md. eq-false n.id d.id (λ e. no_clash n d m md e h))

  all_inside :
      (n : Codebook)
      → Member n w.library.nodes
      → n.id ≢ x.id
      → has_prefix n.path_ids before ≡ true
      → ((all n).path_ids ≡ replace_prefix before (item.path_ids ++ (x.id ∷ [])) n.path_ids)
        × ((all n).depth ≡ n.depth +ℤ sub_ℤ item.depth x.depth)
  all_inside n m other h =
      let (read, written, _) = inside n m h in
      let still = first_other n other in
      let new = item.path_ids ++ (x.id ∷ []) in
      let delta = sub_ℤ item.depth x.depth in
      let listed : Member n carried_rows =
        keep_where-Member (λ c. reads_node w c && has_prefix c.path_ids before) n
          (first_written w item)
          (subst (λ z. Member z (first_written w item)) still
            (Member-map first n w.library.nodes m))
          (ground arith) in
      let goes =
        row_after-hit w before behind delta w.now (replace_prefix before new n.path_ids)
          (n.depth +ℤ delta) carried_rows n
          (λ d md e.
            let same = carried_same n d m md (==→eq n.id d.id e) in
            (
              ap (λ z. replace_prefix before behind z.path_ids) same
                  ∙ ap (λ i. replace_prefix before (item.path_ids ++ (i ∷ [])) n.path_ids)
                      (sym named),
              ap (λ z. z.depth +ℤ delta) same,
            ))
          written (inl (n, listed, ==-self n.id)) in
      (ap (λ z. (after z).path_ids) still ∙ goes.0, ap (λ z. (after z).depth) still ∙ goes.1)

  all-Relocates : Relocates w.library.nodes x item all
  all-Relocates =
      let delta = sub_ℤ item.depth x.depth in
      let kept = row_after-Kept w before behind delta w.now carried_rows in
      record {
        id = λ n. (kept (first n)).0 ∙ by_row (λ a b. a.id ≡ b.id) n refl refl;
        kind = λ n.
            ap is_directory_kind (kept (first n)).1
            ∙ by_row (λ a b. is_directory a ≡ is_directory b) n refl refl;
        scope = λ n. (kept (first n)).2 ∙ by_row (λ a b. a.scope ≡ b.scope) n refl refl;
        tenant = λ n. (kept (first n)).3 ∙ by_row (λ a b. a.tenant_id ≡ b.tenant_id) n refl refl;
        project = λ n m. (kept (first n)).4 ∙ first_project n m;
        self_path = ap (λ z. z.path_ids) all_self;
        self_depth = ap (λ z. z.depth) all_self;
        self_parent = ap (λ z. z.parent_id) all_self;
        other_parent =
            λ n m other. (kept (first n)).5 ∙ ap (λ z. z.parent_id) (first_other n other);
        carried_path = λ n m other h. (all_inside n m other h).0;
        carried_depth = λ n m other h. (all_inside n m other h).1;
        other_path = λ n m other h. ap (λ z. z.path_ids) (all_outside n m other h);
        other_depth = λ n m other h. ap (λ z. z.depth) (all_outside n m other h);
      }

  -- The whole move is one relocation of rows.
  pub relocation :
      (v : World)
      → Written w item x v
      → (g : Codebook → Codebook) × (v.library.nodes ≡ map g w.library.nodes)
        × Relocates w.library.nodes x item g
  relocation v written = elim (Bool-cases (stays x item)) [
    | inl s ↦ (first, written.1 ∙ rw s refl, first-Relocates s)
    | inr s ↦ (all, written.1 ∙ rw s (map-map first after w.library.nodes), all-Relocates)
  ]
