-- ===== src/Codebook/Tree/Moves.antt =====
-- internal/repository/dao/codebook.go: `updateSortInTx` as one change of the table of nodes.
use etask.Base.{
  ℕ, ◌≡◌, inl, inr, refl, sym, ap, ◌∙◌, subst, map, arith, Bool, true, false, not, ◌&&◌, ◌||◌,
  Option, none, some, List, [], ◌∷◌, ◌++◌, sub_ℤ, ◌==◌, ==→eq, if◌then◌else◌, Bool-cases,
  first_where, keep_where, count_where, Member, first_where-Member,
}
use etask.Errs.{ok}
use etask.Domain.Codebook.{Codebook, CodebookSortItem}
use etask.Domain.Codebook.Checks.{is_directory, has_prefix}
use etask.Store.{World}
use etask.Store.Action.{select, found, Action, pure, fail, throw, gets, ◌>>=◌, ◌>>◌}
use etask.Store.Inversion.{bind-ok, statement-ok}
use etask.Codebook.Table.{
  get_node, update_node, require_rows, writes_node, reads_node, readable_node, writable_node,
  put_nodes,
}
use etask.Codebook.Sorting.{
  same_path, moved, touched, carry_descendants, carry_if_moved, write_sort, update_sort_in_tx,
}
use etask.Codebook.Tree.Effects.{change_row, row_after, update_node-ok, carry_descendants-ok}

found-ok :
    {A : Type 0} (o : Option A) (w : World) (a : A)
    → (throw (found o) w).0 ≡ ok a
    → (o ≡ some a) × ((throw (found o) w).1 ≡ w)
unfolding throw found
found-ok none w a h = absurd (ground arith)
found-ok (some b) w a h = (cc, refl)

-- A node that is read stands in the table and is visible; nothing changes.
pub get_node-ok :
    (i : ℕ) (w : World) (x : Codebook)
    → (get_node i w).0 ≡ ok x
    → (rest : List Bool) × Member x w.library.nodes
      × (reads_node w x ≡ true)
      × (x.id ≡ i)
      × ((get_node i w).1 ≡ record w { faults = rest })
unfolding get_node select gets
get_node-ok i w x h =
    let read = λ (v : World). first_where (readable_node i v) v.library.nodes in
    let (row, first, then_rest) = bind-ok (select read) (λ r. throw (found r)) w x h in
    let (rest, e) = statement-ok (gets read) w row first in
    let same : ok (read w) ≡ ok row = ap (λ r. r.0) (sym e) ∙ first in
    let got : row ≡ read w = cc in
    let w1 : World = record w { faults = rest } in
    let at : get_node i w ≡ throw (found (read w)) w1 =
      then_rest ∙ (λ k. throw (found (got k)) ((e k).1)) in
    let done = found-ok (read w) w1 x (ap (λ r. r.0) (sym at) ∙ h) in
    let m = first_where-Member (readable_node i w) x w.library.nodes done.0 in
    let hit = m.1 in
    (rest, m.0, ground arith, ==→eq x.id i (ground arith), ap (λ r. r.1) at ∙ done.1)

pub require_rows-ok :
    (n : ℕ) (w : World)
    → (require_rows n w).0 ≡ ok tt
    → ((n == 0) ≡ false) × ((require_rows n w).1 ≡ w)
unfolding require_rows fail pure
require_rows-ok n w h = elim (Bool-cases (n == 0)) [
  | inl e ↦ absurd (ground arith)
  | inr e ↦ (e, rw e refl)
]

-- the table after the first UPDATE
abbrev pub first_written : World → CodebookSortItem → List Codebook
first_written w item =
    map (λ c. change_row (writable_node item.id w c) (moved item w.now) c) w.library.nodes

-- the table after the loop over the descendants
abbrev pub all_written : World → CodebookSortItem → Codebook → List Codebook
all_written w item x =
    let before = x.path_ids ++ (x.id ∷ []) in
    map
      (row_after (writes_node w) before (item.path_ids ++ (item.id ∷ [])) (sub_ℤ item.depth x.depth)
        w.now
        (keep_where (λ c. reads_node w c && has_prefix c.path_ids before) (first_written w item)))
      (first_written w item)

abbrev pub stays : Codebook → CodebookSortItem → Bool
stays x item = not (is_directory x) || same_path x.path_ids item.path_ids

carry_if_moved-ok :
    (item : CodebookSortItem) (x : Codebook) (w : World) (before : World)
    → w.library.nodes ≡ first_written before item
    → writes_node w ≡ writes_node before
    → reads_node w ≡ reads_node before
    → (carry_if_moved x item before.now w).0 ≡ ok tt
    → (carry_if_moved x item before.now w).1.library.nodes
      ≡ (if stays x item then first_written before item else all_written before item x)
unfolding carry_if_moved pure
carry_if_moved-ok item x w before e writes reads h = elim (Bool-cases (stays x item)) [
  | inl s ↦ rw s e
  | inr s ↦
      let run = λ (b : Bool). if b then pure tt else carry_descendants x item before.now in
      let at : carry_if_moved x item before.now w ≡ carry_descendants x item before.now w =
        ap (λ b. run b w) s in
      let done = carry_descendants-ok x item before.now w (ap (λ r. r.0) (sym at) ∙ h) in
      ap (λ r. r.1.library.nodes) at
      ∙ ap (λ v. v.library.nodes) done.1
      ∙ (rw (s, writes, reads, e) refl)
]

bind-gets :
    {A B : Type 0} (f : World → A) (k : A → Action B) (w : World) → (gets f >>= k) w ≡ k (f w) w
unfolding ◌>>=◌ gets
bind-gets f k w = refl

abbrev pub Written : World → CodebookSortItem → Codebook → World → Type 0
Written w item x v =
    ((count_where (writable_node item.id w) w.library.nodes == 0) ≡ false)
    × (v.library.nodes ≡ (if stays x item then first_written w item else all_written w item x))

write_sort-ok :
    (item : CodebookSortItem) (x : Codebook) (w : World)
    → (write_sort item w.now x w).0 ≡ ok tt
    → Written w item x (write_sort item w.now x w).1
unfolding write_sort
write_sort-ok item x w h =
    let f = moved item w.now in
    let finish = carry_if_moved x item w.now in
    let (n, first, then_check) =
      bind-ok (update_node item.id f) (λ n. require_rows n >> finish) w tt h in
    let done = update_node-ok item.id f w n first in
    let w1 : World = put_nodes (first_written w item) (record w { faults = done.0 }) in
    let checked : write_sort item w.now x w ≡ (require_rows n >> finish) w1 =
      then_check ∙ ap (require_rows n >> finish) done.2 in
    let (u, second, then_finish) =
      bind-ok (require_rows n) (λ _. finish) w1 tt (ap (λ r. r.0) (sym checked) ∙ h) in
    let some_row = require_rows-ok n w1 second in
    let finished : write_sort item w.now x w ≡ finish w1 =
      checked ∙ then_finish ∙ ap finish some_row.1 in
    (
      subst (λ k. (k == 0) ≡ false) done.1 some_row.0,
      ap (λ r. r.1.library.nodes) finished
          ∙ carry_if_moved-ok item x w1 w refl refl refl (ap (λ r. r.0) (sym finished) ∙ h),
    )

pub update_sort_in_tx-ok :
    (item : CodebookSortItem) (projects : List ℕ) (w : World) (ps : List ℕ)
    → (update_sort_in_tx item projects w).0 ≡ ok ps
    → (x : Codebook) × Member x w.library.nodes
      × (reads_node w x ≡ true)
      × (x.id ≡ item.id)
      × Written w item x (update_sort_in_tx item projects w).1
unfolding update_sort_in_tx pure
update_sort_in_tx-ok item projects w ps h =
    let finish = λ (x : Codebook). write_sort item w.now x >> pure (touched x item projects) in
    let clock =
      bind-gets (λ (v : World). v.now)
        (λ now. get_node item.id >>= λ x. write_sort item now x >> pure (touched x item projects))
        w in
    let (x, first, then_finish) =
      bind-ok (get_node item.id) finish w ps (ap (λ r. r.0) (sym clock) ∙ h) in
    let (rest, m, visible, named, at) = get_node-ok item.id w x first in
    let w1 : World = record w { faults = rest } in
    let begun : update_sort_in_tx item projects w ≡ finish x w1 =
      clock ∙ then_finish ∙ ap (finish x) at in
    let (u, second, ended) =
      bind-ok (write_sort item w.now x) (λ _. pure (touched x item projects)) w1 ps
        (ap (λ r. r.0) (sym begun) ∙ h) in
    let done = write_sort-ok item x w1 second in
    (x, m, visible, named, (done.0, ap (λ r. r.1.library.nodes) (begun ∙ ended) ∙ done.1))
