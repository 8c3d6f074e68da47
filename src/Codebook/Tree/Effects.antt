-- ===== src/Codebook/Tree/Effects.antt =====
-- What the statements of a move make of the table of nodes.
use etask.Base.{
  ℕ, ◌≡◌, refl, sym, ap, ◌∙◌, map, arith, Bool, not, ◌&&◌, List, [], ◌∷◌, ◌++◌, ℤ, sub_ℤ, ◌==◌,
  if◌then◌else◌, Bool-cases, inl, inr, count_where, update_where, keep_where, any_where,
}
use etask.Errs.{ok}
use etask.Domain.Codebook.{Codebook, CodebookSortItem}
use etask.Domain.Codebook.Checks.{has_prefix}
use etask.Store.{World}
use etask.Store.Action.{select, pure, gets}
use etask.Store.Inversion.{bind-ok, statement-ok}
use etask.Codebook.Table.{
  writes_node, reads_node, writable_node, names_collide, put_nodes, change_node, update_node,
}
use etask.Codebook.Sorting.{carried, carry_all, carry_descendants}

abbrev pub change_row : Bool → (Codebook → Codebook) → Codebook → Codebook
change_row hit f n = if hit then f n else n

pub update_where-map :
    (p : Codebook → Bool) (f : Codebook → Codebook) (xs : List Codebook)
    → update_where p f xs ≡ map (λ n. change_row (p n) f n) xs
update_where-map p f [] = refl
update_where-map p f (x ∷ xs) = ap (λ r. change_row (p x) f x ∷ r) (update_where-map p f xs)

change_node-ok :
    (i : ℕ) (f : Codebook → Codebook) (w : World) (n : ℕ)
    → (change_node i f w).0 ≡ ok n
    → (n ≡ count_where (writable_node i w) w.library.nodes)
      × ((change_node i f w).1 ≡ put_nodes (update_where (writable_node i w) f w.library.nodes) w)
change_node-ok i f w n h =
    let p = writable_node i w in
    let nodes = w.library.nodes in
    elim (Bool-cases (
      any_where (λ c. p c && any_where (λ o. not (o.id == c.id) && names_collide w (f c) o) nodes)
        nodes)) [ inl e ↦ absurd (ground arith) | inr e ↦ (ground arith, rw e refl) ]

-- An UPDATE that goes through has changed the rows that its WHERE clause meets.
pub update_node-ok :
    (i : ℕ) (f : Codebook → Codebook) (w : World) (n : ℕ)
    → (update_node i f w).0 ≡ ok n
    → (rest : List Bool) × (n ≡ count_where (writable_node i w) w.library.nodes)
      × ((update_node i f w).1
          ≡ put_nodes
              (map (λ c. change_row (writable_node i w c) f c) w.library.nodes)
              (record w { faults = rest }))
unfolding update_node
update_node-ok i f w n h =
    let (rest, e) = statement-ok (change_node i f) w n h in
    let done = change_node-ok i f (record w { faults = rest }) n (ap (λ r. r.0) (sym e) ∙ h) in
    (
      rest,
      done.0,
      ap (λ r. r.1) e
          ∙ done.1
          ∙ ap (λ ns. put_nodes ns (record w { faults = rest }))
              (update_where-map (writable_node i w) f w.library.nodes),
    )

module _ (writes : Codebook → Bool) (old new : List ℕ) (delta : ℤ) (now : ℕ) where
  -- the row after the UPDATE of each descendant
  unfoldable pub row_after : List Codebook → Codebook → Codebook
  row_after [] n = n
  row_after (d ∷ ds) n =
      row_after ds (change_row (writes n && n.id == d.id) (carried old new delta now d) n)

map-id : (xs : List Codebook) → map (λ n. n) xs ≡ xs
map-id [] = refl
map-id (x ∷ xs) = ap (λ r. x ∷ r) (map-id xs)

pub map-map :
    (f g : Codebook → Codebook) (xs : List Codebook) → map g (map f xs) ≡ map (λ n. g (f n)) xs
map-map f g [] = refl
map-map f g (x ∷ xs) = ap (λ r. g (f x) ∷ r) (map-map f g xs)

pub carry_all-ok :
    (old new : List ℕ) (delta : ℤ) (now : ℕ) (ds : List Codebook) (w : World)
    → (carry_all old new delta now ds w).0 ≡ ok tt
    → (rest : List Bool) × ((carry_all old new delta now ds w).1
        ≡ put_nodes
            (map (row_after (writes_node w) old new delta now ds) w.library.nodes)
            (record w { faults = rest }))
unfolding carry_all row_after pure
carry_all-ok old new delta now [] w h =
    (w.faults, ap (λ ns. put_nodes ns w) (sym (map-id w.library.nodes)))
carry_all-ok old new delta now (d ∷ ds) w h =
    let f = carried old new delta now d in
    let g = λ (n : Codebook). change_row (writable_node d.id w n) f n in
    let (a, first, then_rest) =
      bind-ok (update_node d.id f) (λ _. carry_all old new delta now ds) w tt h in
    let done = update_node-ok d.id f w a first in
    let w1 : World = put_nodes (map g w.library.nodes) (record w { faults = done.0 }) in
    let at = then_rest ∙ ap (carry_all old new delta now ds) done.2 in
    let ih = carry_all-ok old new delta now ds w1 (ap (λ r. r.0) (sym at) ∙ h) in
    (
      ih.0,
      ap (λ r. r.1) at
          ∙ ih.1
          ∙ ap (λ ns. put_nodes ns (record w { faults = ih.0 }))
              (map-map g (row_after (writes_node w) old new delta now ds) w.library.nodes),
    )

abbrev pub descendants_of : World → List ℕ → List Codebook
descendants_of w prefix =
    keep_where (λ c. reads_node w c && has_prefix c.path_ids prefix) w.library.nodes

-- the SELECT of the descendants and the loop over them
pub carry_descendants-ok :
    (old : Codebook) (item : CodebookSortItem) (now : ℕ) (w : World)
    → (carry_descendants old item now w).0 ≡ ok tt
    → let before = old.path_ids ++ (old.id ∷ []) in
      let after = item.path_ids ++ (item.id ∷ []) in
      (rest : List Bool) × ((carry_descendants old item now w).1
        ≡ put_nodes
            (map
              (row_after
                (writes_node w)
                before
                after
                (sub_ℤ item.depth old.depth)
                now
                (descendants_of w before))
              w.library.nodes)
            (record w { faults = rest }))
unfolding carry_descendants select gets
carry_descendants-ok old item now w h =
    let before = old.path_ids ++ (old.id ∷ []) in
    let after = item.path_ids ++ (item.id ∷ []) in
    let delta = sub_ℤ item.depth old.depth in
    let rest_of = carry_all before after delta now in
    let read = λ (v : World). descendants_of v before in
    let (ds, first, then_rest) = bind-ok (select read) rest_of w tt h in
    let (rest, e) = statement-ok (gets read) w ds first in
    let w1 : World = record w { faults = rest } in
    let same : ok (read w) ≡ ok ds = ap (λ r. r.0) (sym e) ∙ first in
    let got : ds ≡ read w = cc in
    let at : carry_descendants old item now w ≡ rest_of (read w) w1 =
      then_rest ∙ (λ i. rest_of (got i) ((e i).1)) in
    let done = carry_all-ok before after delta now (read w) w1 (ap (λ r. r.0) (sym at) ∙ h) in
    (done.0, ap (λ r. r.1) at ∙ done.1)
