-- ===== src/Sorter/Plans.antt =====
-- pkg/sorter/sorter.go: every plan puts the dragged row where it was dropped.
use etask.Base.{ℕ, suc, ◌≡◌, List, length, ℤ, pos, negsuc, mul_64}
use etask.Sorter.{Sortable, Sorter, ReorderPlan, move_to, rebalance, insert_at, clamp, insert_elem}
use etask.Sorter.Order.{Ascending, keys, ids}

-- What is asked of a plan: with the new key in its place, the keys go up; or all rows stand in the
-- wanted order, with keys that go up.
abbrev pub Orders :
    {E T : Type 0} ⦃o : Sortable E⦄ ⦃t : Sortable T⦄ → List E → E → ℤ → ReorderPlan T → Type 0
Orders remaining dragged position (move_to key) =
    Ascending (negsuc 0) (insert_at (clamp position (length remaining)) key (keys remaining))
Orders remaining dragged position (rebalance items) =
    (ids items ≡ ids (insert_elem remaining dragged position)) × Ascending (pos 0) (keys items)

-- The conversion of a sorter that numbers the rows keeps the row's id and gives it the key that belongs to its place.
pub record Numbers {E T : Type 0} ⦃o : Sortable E⦄ ⦃t : Sortable T⦄ (s : Sorter E T) : Type 0 where
  pub gap : s.index_gap ≡ pos 1000
  pub same_id : (e : E) (i : ℕ) → t.get_id (s.convert e i) ≡ o.get_id e
  pub next_key : (e : E) (i : ℕ) → t.get_sort_key (s.convert e i) ≡ mul_64 (pos (suc i)) (pos 1000)
