-- ===== src/Sorter.antt =====
-- pkg/sorter/sorter.go: the plan for a row that is dragged to a place among its siblings. Keys are
-- sparse int64, and a move writes one key while there is room for it.
pub mod Order
pub mod Plans
use etask.Base.{
  ℕ, zero, suc, ◌+◌, ◌-◌, ◌/◌, Bool, true, false, not, ◌||◌, Option, none, some, List, [], ◌∷◌,
  length, ℤ, pos, negsuc, pos_part, sub_ℕ, ◌+ℤ◌, leb_ℤ, wrap_64, mul_64, ◌==◌, if◌then◌else◌,
}

-- Sortable
pub record Sortable (E : Type 0) : Type 0 where
  pub get_id : E → ℕ
  pub get_sort_key : E → ℤ

pub data ReorderPlan (T : Type 0) : Type 0 where
  -- NeedRebalance is false
  move_to : ℤ → ReorderPlan T
  rebalance : List T → ReorderPlan T

pub record Sorter (E T : Type 0) : Type 0 where
  pub index_gap : ℤ
  pub convert : E → ℕ → T

-- DefaultIndexGap
abbrev pub default_index_gap : ℤ
default_index_gap = pos 1000

-- a / 2, which rounds to zero
unfoldable pub half : ℤ → ℤ
half (pos n) = pos (n / 2)
half (negsuc n) = sub_ℕ 0 (suc n / 2)

infixl 5 ◌>>=◌
abbrev pub ◌>>=◌ : {A B : Type 0} → Option A → (A → Option B) → Option B
none >>= f = none
some a >>= f = f a

abbrev pub get_elem? : {A : Type 0} → List A → ℕ → Option A
get_elem? [] i = none
get_elem? (x ∷ xs) zero = some x
get_elem? (x ∷ xs) (suc i) = get_elem? xs i

-- slices.Insert, at a place within the list
abbrev pub insert_at : {A : Type 0} → ℕ → A → List A → List A
insert_at zero a xs = a ∷ xs
insert_at (suc i) a [] = a ∷ []
insert_at (suc i) a (x ∷ xs) = x ∷ insert_at i a xs

abbrev pub map_from : {A B : Type 0} → (A → ℕ → B) → ℕ → List A → List B
map_from f i [] = []
map_from f i (x ∷ xs) = f x i ∷ map_from f (suc i) xs

-- the place from 0 to the length that a position is clamped to
abbrev pub clamp : ℤ → ℕ → ℕ
clamp position n =
    if leb_ℤ position (pos 0) then 0 else if leb_ℤ (pos n) position then n else pos_part position

module _ {E : Type 0} ⦃o : Sortable E⦄ where
  -- `removeDragged`: the first element with the id
  unfoldable pub remove_dragged : List E → ℕ → List E
  remove_dragged [] dragged = []
  remove_dragged (e ∷ es) dragged =
      let rest = remove_dragged es dragged in if o.get_id e == dragged then es else e ∷ rest

  -- `insertElem`
  unfoldable pub insert_elem : List E → E → ℤ → List E
  insert_elem es e position = insert_at (clamp position (length es)) e es

  -- elems[i].GetSortKey(): `none` is the panic of an index out of range
  abbrev pub key_at : List E → ℕ → Option ℤ
  key_at es i = get_elem? es i >>= λ e. some (o.get_sort_key e)

  -- `calculateSortKey`
  unfoldable pub calculate_sort_key : ℤ → List E → ℤ → Option ℤ
  calculate_sort_key gap es position =
      let n = length es in
      if n == 0
      then some gap
      else if leb_ℤ (pos n) position
      then (key_at es (n - 1) >>= λ k. some (wrap_64 (k +ℤ gap)))
      else if leb_ℤ position (pos 0)
      then (key_at es 0 >>= λ k. some (half k))
      else (key_at es (pos_part position - 1) >>= λ j.
          key_at es (pos_part position) >>= λ k. some (half (wrap_64 (j +ℤ k))))

  -- `needsRebalance`
  unfoldable pub needs_rebalance : List E → ℤ → ℤ → Option Bool
  needs_rebalance es position key =
      if leb_ℤ position (pos 0) || leb_ℤ (pos (length es)) position
      then some false
      else (key_at es (pos_part position - 1) >>= λ j. some (leb_ℤ key j))

module _ {E T : Type 0} where
  -- `generateRebalanceItems`
  unfoldable pub generate_rebalance_items : Sorter E T → List E → List T
  generate_rebalance_items s es = map_from s.convert 0 es

module _ {E T : Type 0} ⦃o : Sortable E⦄ where
  abbrev pub plan_for : Sorter E T → List E → E → ℤ → ℤ → Bool → ReorderPlan T
  plan_for s remaining dragged position key true =
      rebalance (generate_rebalance_items s (insert_elem remaining dragged position))
  plan_for s remaining dragged position key false = move_to key

  -- `PlanReorder`
  unfoldable pub plan_reorder : Sorter E T → List E → E → ℤ → Option (ReorderPlan T)
  plan_reorder s es dragged position =
      let remaining = remove_dragged es (o.get_id dragged) in
      calculate_sort_key s.index_gap remaining position >>= λ key.
      needs_rebalance remaining position key >>= λ full.
      some (plan_for s remaining dragged position key full)
