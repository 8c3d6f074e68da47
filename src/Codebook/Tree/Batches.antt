-- ===== src/Codebook/Tree/Batches.antt =====
-- internal/repository/dao/codebook.go: `UpdateSort` and `BatchUpdateSort` to one proper place.
use etask.Base.{ℕ, ◌≡◌, ◌⊎◌, inl, inr, refl, sym, ap, ◌∙◌, subst, map, List, [], ◌∷◌, Member}
use etask.Errs.{Err, Result, ok, err}
use etask.Domain.Codebook.{Codebook, CodebookSortItem}
use etask.Store.{World}
use etask.Store.Action.{Action, pure, throw, try, transaction, ◌>>=◌}
use etask.Store.Inversion.{bind-ok, transaction-ok}
use etask.Store.Quiet.{transaction-atomic}
use etask.Codebook.Sorting.{
  update_sort_in_tx, sort_each, bump_project_source_revisions, update_sort, batch_update_sort,
}
use etask.Codebook.Table.{write_error}
use etask.Codebook.Tree.{IsTree}
use etask.Codebook.Tree.Relocation.{
  IsTarget, Relocates, path_below, map-IsTree, untouched, Member-map, map-Member,
}
use etask.Codebook.Tree.Moves.{update_sort_in_tx-ok}
use etask.Codebook.Tree.Moved.{relocation}
use etask.Codebook.Tree.Reading.{bumps-SameNodes}

-- The item names a proper place for each node that has its id.
abbrev pub Proper : List Codebook → CodebookSortItem → Type 0
Proper nodes item = (x : Codebook) → Member x nodes → x.id ≡ item.id → IsTarget nodes x item

abbrev pub AllProper : List Codebook → List ℕ → List CodebookSortItem → Type 0
AllProper nodes path [] = Unit {0}
AllProper nodes path (item ∷ items) =
    Proper nodes item × (item.path_ids ≡ path) × AllProper nodes path items

module _ (nodes : List Codebook) (tree : IsTree nodes) (x : Codebook) (there : Member x nodes)
    (item : CodebookSortItem) (target : IsTarget nodes x item) (g : Codebook → Codebook)
    (r : Relocates nodes x item g) where
  -- A place for another node on the same path is one after the move too.
  keep_place :
      (y : Codebook) (other : CodebookSortItem)
      → Member y nodes
      → other.path_ids ≡ item.path_ids
      → IsTarget nodes y other
      → IsTarget (map g nodes) (g y) other
  keep_place y other my same t = record {
    same_node = t.same_node ∙ sym (r.id y);
    same_project = t.same_project ∙ sym (r.project y my);
    place = elim t.place [
      | inl root ↦ inl root
      | inr (q, m, d, named, path, scope, project, tenant) ↦
          let away : Member x.id (path_below q) → ⊥ = λ h. target.outside (
            subst (λ i. Member i item.path_ids) (sym target.same_node)
              (subst (λ p. Member x.id p) (sym path ∙ same) h)) in
          let still = untouched nodes tree x there item target g r q m away in
          inr (
            g q,
            Member-map g q nodes m,
            r.kind q ∙ d,
            named ∙ sym (r.id q),
            path ∙ (rw (still.0, r.id q) refl),
            r.scope y ∙ scope ∙ sym (r.scope q),
            r.project y my ∙ project ∙ sym (r.project q m),
            r.tenant y ∙ tenant ∙ sym (r.tenant q),
          )
    ];
    outside = t.outside;
    deep = t.deep;
  }

  keep_Proper :
      (other : CodebookSortItem)
      → other.path_ids ≡ item.path_ids
      → Proper nodes other
      → Proper (map g nodes) other
  keep_Proper other same h y' m e =
      let (y, my, at) = map-Member g y' nodes m in
      subst (λ z. IsTarget (map g nodes) z other) (sym at)
        (keep_place y other my same (h y my (sym (r.id y) ∙ ap (λ z. z.id) (sym at) ∙ e)))

  keep_all :
      (items : List CodebookSortItem)
      → AllProper nodes item.path_ids items
      → AllProper (map g nodes) item.path_ids items
  keep_all [] h = tt
  keep_all (i ∷ items) h = (keep_Proper i h.1 h.0, h.1, keep_all items h.2)

-- One item, in a transaction that goes through.
one_move :
    (item : CodebookSortItem) (projects : List ℕ) (w : World) (ps : List ℕ)
    → IsTree w.library.nodes
    → Proper w.library.nodes item
    → (update_sort_in_tx item projects w).0 ≡ ok ps
    → let v = (update_sort_in_tx item projects w).1 in
      IsTree v.library.nodes
      × ((items : List CodebookSortItem)
          → AllProper w.library.nodes item.path_ids items
          → AllProper v.library.nodes item.path_ids items)
one_move item projects w ps tree proper h =
    let nodes = w.library.nodes in
    let (x, there, visible, named, written) = update_sort_in_tx-ok item projects w ps h in
    let target = proper x there named in
    let v = (update_sort_in_tx item projects w).1 in
    let (g, at, r) = relocation w tree item x there named visible target written.0 v written in
    (
      subst IsTree (sym at) (map-IsTree nodes tree x there item target g r),
      λ items all.
          subst (λ ns. AllProper ns item.path_ids items) (sym at)
            (keep_all nodes tree x there item target g r items all),
    )

sort_each-IsTree :
    (path : List ℕ) (items : List CodebookSortItem) (projects : List ℕ) (w : World) (ps : List ℕ)
    → IsTree w.library.nodes
    → AllProper w.library.nodes path items
    → (sort_each items projects w).0 ≡ ok ps
    → IsTree (sort_each items projects w).1.library.nodes
unfolding sort_each pure
sort_each-IsTree path [] projects w ps tree all h = tree
sort_each-IsTree path (item ∷ items) projects w ps tree all h =
    let (touched, first, then_rest) =
      bind-ok (update_sort_in_tx item projects) (sort_each items) w ps h in
    let w1 = (update_sort_in_tx item projects w).1 in
    let moved = one_move item projects w touched tree all.0 first in
    let rest = moved.1 items (subst (λ p. AllProper w.library.nodes p items) (sym all.1) all.2) in
    subst (λ r. IsTree r.1.library.nodes) (sym then_rest)
      (sort_each-IsTree item.path_ids items touched w1 ps moved.0 rest
        (ap (λ r. r.0) (sym then_rest) ∙ h))

Result-cases : {A : Type 0} (r : Result A) → ((a : A) × (r ≡ ok a)) ⊎ ((x : Err) × (r ≡ err x))
Result-cases (ok a) = inl (a, refl)
Result-cases (err x) = inr (x, refl)

-- A transaction keeps the trees if its body does where it goes through.
pub transaction-IsTree :
    {A : Type 0} (m : Action A) (w : World)
    → IsTree w.library.nodes
    → ((a : A) → (m w).0 ≡ ok a → IsTree (m w).1.library.nodes)
    → IsTree (transaction m w).1.library.nodes
transaction-IsTree m w tree h = elim (Result-cases (transaction m w).0) [
  | inl (a, e) ↦
      let (rest, body, at) = transaction-ok m w a e in
      subst (λ r. IsTree r.1.library.nodes) (sym at) (h a body)
  | inr (x, e) ↦
      let (rest, at) = transaction-atomic m w x e in
      subst (λ v. IsTree v.library.nodes) (sym at) tree
]

then_bumps :
    (m : Action (List ℕ)) (w : World)
    → ((ps : List ℕ) → (m w).0 ≡ ok ps → IsTree (m w).1.library.nodes)
    → (a : Unit {0}) → ((m >>= bump_project_source_revisions) w).0 ≡ ok a
    → IsTree ((m >>= bump_project_source_revisions) w).1.library.nodes
then_bumps m w h a e =
    let (ps, first, at) = bind-ok m bump_project_source_revisions w a e in
    subst (λ r. IsTree r.1.library.nodes) (sym at)
      (subst IsTree (sym ((bumps-SameNodes ps).at (m w).1)) (h ps first))

reported :
    {A : Type 0} (m : Action A) (w : World)
    → IsTree (m w).1.library.nodes
    → IsTree ((try m >>= λ r. throw (write_error r)) w).1.library.nodes
unfolding try throw ◌>>=◌
reported m w h = h

pub update_sort-IsTree :
    (item : CodebookSortItem) (w : World)
    → IsTree w.library.nodes
    → Proper w.library.nodes item
    → IsTree (update_sort item w).1.library.nodes
unfolding update_sort
update_sort-IsTree item w tree proper =
    let body = update_sort_in_tx item [] in
    reported (transaction (body >>= bump_project_source_revisions)) w (
      transaction-IsTree (body >>= bump_project_source_revisions) w tree
        (then_bumps body w (λ ps e. (one_move item [] w ps tree proper e).0)))

pub batch_update_sort-IsTree :
    (path : List ℕ) (items : List CodebookSortItem) (w : World)
    → IsTree w.library.nodes
    → AllProper w.library.nodes path items
    → IsTree (batch_update_sort items w).1.library.nodes
unfolding batch_update_sort pure
batch_update_sort-IsTree path [] w tree all = tree
batch_update_sort-IsTree path (item ∷ items) w tree all =
    let body = sort_each (item ∷ items) [] in
    reported (transaction (body >>= bump_project_source_revisions)) w (
      transaction-IsTree (body >>= bump_project_source_revisions) w tree
        (then_bumps body w (λ ps e. sort_each-IsTree path (item ∷ items) [] w ps tree all e)))
