-- ===== src/Codebook/Tree/Rows.antt =====
-- What becomes of each row when a node is moved.
use etask.Base.{
  ℕ, ◌≡◌, ◌⊎◌, inl, inr, refl, sym, ap, ◌∙◌, subst, arith, Bool, true, false, ◌&&◌, List, [], ◌∷◌,
  ℤ, ◌+ℤ◌, ◌==◌, Bool-cases, keep_where, Member,
}
use etask.Domain.Codebook.{Codebook}
use etask.Store.{World}
use etask.Codebook.Table.{writes_node}
use etask.Codebook.Sorting.{carried, replace_prefix}
use etask.Codebook.Tree.Effects.{change_row, row_after}

-- what a move leaves alone in the rows that are carried along
abbrev pub Kept : Codebook → Codebook → Type 0
Kept a b =
    (a.id ≡ b.id)
    × (a.kind ≡ b.kind)
    × (a.scope ≡ b.scope)
    × (a.tenant_id ≡ b.tenant_id)
    × (a.project_id ≡ b.project_id)
    × (a.parent_id ≡ b.parent_id)

pub keep_where-Member :
    (p : Codebook → Bool) (b : Codebook) (xs : List Codebook)
    → Member b xs
    → p b ≡ true
    → Member b (keep_where p xs)
keep_where-Member p b [] m h = m
keep_where-Member p b (x ∷ xs) (inl e) h = rw (subst (λ z. p z ≡ true) e h) (inl e)
keep_where-Member p b (x ∷ xs) (inr m) h = elim (Bool-cases (p x)) [
  | inl e ↦ rw e (inr (keep_where-Member p b xs m h))
  | inr e ↦ rw e (keep_where-Member p b xs m h)
]

later :
    (path : List ℕ) (depth : ℤ) (d n : Codebook) (ds : List Codebook)
    → ((x : Codebook) × Member x (d ∷ ds) × ((n.id == x.id) ≡ true))
      ⊎ ((n.path_ids ≡ path) × (n.depth ≡ depth))
    → (n.id == d.id) ≡ false
    → ((x : Codebook) × Member x ds × ((n.id == x.id) ≡ true))
      ⊎ ((n.path_ids ≡ path) × (n.depth ≡ depth))
later path depth d n ds (inl (x, inl same, e)) miss =
    absurd (let f = subst (λ (z : Codebook). (n.id == z.id) ≡ true) same e in ground arith)
later path depth d n ds (inl (x, inr m, e)) miss = inl (x, m, e)
later path depth d n ds (inr there) miss = inr there

module _ (w : World) (old new : List ℕ) (delta : ℤ) (now : ℕ) where
  abbrev after : List Codebook → Codebook → Codebook
  after = row_after (writes_node w) old new delta now

  step_Kept : (b : Bool) (d n : Codebook) → Kept (change_row b (carried old new delta now d) n) n
  step_Kept true d n = (refl, refl, refl, refl, refl, refl)
  step_Kept false d n = (refl, refl, refl, refl, refl, refl)

  pub row_after-Kept : (ds : List Codebook) (n : Codebook) → Kept (after ds n) n
  unfolding row_after
  row_after-Kept [] n = (refl, refl, refl, refl, refl, refl)
  row_after-Kept (d ∷ ds) n =
      let b = writes_node w n && n.id == d.id in
      let s = step_Kept b d n in
      let r = row_after-Kept ds (change_row b (carried old new delta now d) n) in
      (r.0 ∙ s.0, r.1 ∙ s.1, r.2 ∙ s.2, r.3 ∙ s.3, r.4 ∙ s.4, r.5 ∙ s.5)

  -- no descendant has the id of the row
  pub row_after-miss :
      (ds : List Codebook) (n : Codebook)
      → ((d : Codebook) → Member d ds → (n.id == d.id) ≡ false)
      → after ds n ≡ n
  unfolding row_after
  row_after-miss [] n h = refl
  row_after-miss (d ∷ ds) n h =
      let e : (writes_node w n && n.id == d.id) ≡ false = ground (arith, h d (inl refl)) in
      rw e (row_after-miss ds n (λ x m. h x (inr m)))

  step :
      (d n : Codebook) (ds : List Codebook) (b : Bool)
      → (writes_node w n && n.id == d.id) ≡ b
      → after (d ∷ ds) n ≡ after ds (change_row b (carried old new delta now d) n)
  unfolding row_after
  step d n ds b e = ap (λ c. after ds (change_row c (carried old new delta now d) n)) e

  -- every descendant with the id of the row has the same place to go to
  pub row_after-hit :
      (path : List ℕ) (depth : ℤ) (ds : List Codebook) (n : Codebook)
      → ((d : Codebook)
          → Member d ds
          → (n.id == d.id) ≡ true
          → (replace_prefix old new d.path_ids ≡ path) × (d.depth +ℤ delta ≡ depth))
      → writes_node w n ≡ true
      → ((d : Codebook) × Member d ds × ((n.id == d.id) ≡ true))
        ⊎ ((n.path_ids ≡ path) × (n.depth ≡ depth))
      → ((after ds n).path_ids ≡ path) × ((after ds n).depth ≡ depth)
  unfolding row_after
  row_after-hit path depth [] n h writes (inl (d, m, e)) = elim m [ ]
  row_after-hit path depth [] n h writes (inr there) = there
  row_after-hit path depth (d ∷ ds) n h writes now_or_later =
      let Goes = λ (z : Codebook). (z.path_ids ≡ path) × (z.depth ≡ depth) in
      elim (Bool-cases (n.id == d.id)) [
        | inl e ↦ subst Goes (sym (step d n ds true (ground arith))) (
            row_after-hit path depth ds (carried old new delta now d n) (λ x m. h x (inr m)) writes
              (inr (h d (inl refl) e)))
        | inr e ↦ subst Goes (sym (step d n ds false (ground arith))) (
            row_after-hit path depth ds n (λ x m. h x (inr m)) writes
              (later path depth d n ds now_or_later e))
      ]
