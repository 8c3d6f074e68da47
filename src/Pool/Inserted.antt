-- ===== src/Pool/Inserted.antt =====
-- What an INSERT of bindings leaves in the table.
use etask.Base.{
  ℕ, ◌≡◌, ◌⊎◌, refl, sym, ap, ◌∙◌, arith, List, [], ◌∷◌, ◌++◌, inl, inr, Bool-cases, Member, subst,
  any_where,
}
use etask.Errs.{ok}
use etask.Domain.Pool.{ExecutionPoolBinding}
use etask.Store.{World}
use etask.Store.Action.{pure}
use etask.Store.Inversion.{bind-ok}
use etask.Pool.Tables.{
  insert_binding, insert_bindings, stored_binding, same_binding, or_binding_enabled,
}

Member-append_left : {A : Type 0} (b : A) (xs ys : List A) → Member b xs → Member b (xs ++ ys)
Member-append_left b [] ys m = elim m [ ]
Member-append_left b (x ∷ xs) ys (inl e) = inl e
Member-append_left b (x ∷ xs) ys (inr m) = inr (Member-append_left b xs ys m)

Member-append_last : {A : Type 0} (b : A) (xs : List A) → Member b (xs ++ (b ∷ []))
Member-append_last b [] = inl refl
Member-append_last b (x ∷ xs) = inr (Member-append_last b xs)

append-Member :
    {A : Type 0} (b a : A) (xs : List A) → Member b (xs ++ (a ∷ [])) → Member b xs ⊎ (b ≡ a)
append-Member b a [] (inl e) = inr e
append-Member b a [] (inr m) = elim m [ ]
append-Member b a (x ∷ xs) (inl e) = inl (inl e)
append-Member b a (x ∷ xs) (inr m) = elim (append-Member b a xs m) [
  | inl k ↦ inl (inr k)
  | inr e ↦ inr e
]

-- the row that stands for `c` in the table of a tenant
pub record IsRowOf (tenant : ℕ) (c b : ExecutionPoolBinding) : Type 0 where
  pub tenant_id : b.tenant_id ≡ tenant
  pub pool_name : b.pool_name ≡ c.pool_name
  pub handler_name : b.handler_name ≡ c.handler_name
  pub status : b.status ≡ or_binding_enabled c.status

pub record Inserted (tenant : ℕ) (bs old new : List ExecutionPoolBinding) : Type 0 where
  pub kept : (b : ExecutionPoolBinding) → Member b old → Member b new
  pub from : (b : ExecutionPoolBinding) → Member b new → Member b old ⊎ (b.tenant_id ≡ tenant)
  pub bound :
      (c : ExecutionPoolBinding)
      → Member c bs
      → (b : ExecutionPoolBinding) × Member b new × IsRowOf tenant c b

insert_binding-ok :
    (tenant : ℕ) (c : ExecutionPoolBinding) (w : World)
    → (insert_binding tenant c w).0 ≡ ok tt
    → (insert_binding tenant c w).1.pool_tables.bindings
      ≡ w.pool_tables.bindings ++ (stored_binding w tenant c ∷ [])
unfolding insert_binding
insert_binding-ok tenant c w h =
    elim (Bool-cases
      (any_where (same_binding w (stored_binding w tenant c)) w.pool_tables.bindings)) [
        | inl e ↦ absurd (ground arith)
        | inr e ↦ rw e refl
      ]

pub insert_bindings-Inserted :
    (tenant : ℕ) (bs : List ExecutionPoolBinding) (w : World)
    → (insert_bindings tenant bs w).0 ≡ ok tt
    → Inserted tenant bs w.pool_tables.bindings (insert_bindings tenant bs w).1.pool_tables.bindings
unfolding insert_bindings pure
insert_bindings-Inserted tenant [] w h = record {
  kept = λ b m. m;
  from = λ b m. inl m;
  bound = λ c m. elim m [ ];
}
insert_bindings-Inserted tenant (c ∷ bs) w h =
    let (u, first, then_rest) =
      bind-ok (insert_binding tenant c) (λ _. insert_bindings tenant bs) w tt h in
    let v = (insert_binding tenant c w).1 in
    let row = stored_binding w tenant c in
    let now_in = insert_binding-ok tenant c w first in
    let ih = insert_bindings-Inserted tenant bs v (ap (λ r. r.0) (sym then_rest) ∙ h) in
    let goes : (b : ExecutionPoolBinding)
        → Member b (w.pool_tables.bindings ++ (row ∷ []))
        → Member b (insert_bindings tenant bs v).1.pool_tables.bindings =
      λ b m. ih.kept b (subst (Member b) (sym now_in) m) in
    let whole : Inserted tenant (c ∷ bs) w.pool_tables.bindings
        (insert_bindings tenant bs v).1.pool_tables.bindings =
      record {
        kept = λ b m. goes b (Member-append_left b w.pool_tables.bindings (row ∷ []) m);
        from = λ b m. elim (ih.from b m) [
          | inl k ↦ elim (append-Member b row w.pool_tables.bindings (subst (Member b) now_in k)) [
            | inl o ↦ inl o
            | inr e ↦ inr (ap (λ (r : ExecutionPoolBinding). r.tenant_id) e)
          ]
          | inr e ↦ inr e
        ];
        bound = λ d m. elim m [
          | inl e ↦ (
            row,
            goes row (Member-append_last row w.pool_tables.bindings),
            record {
              tenant_id = refl;
              pool_name = ap (λ (r : ExecutionPoolBinding). r.pool_name) (sym e);
              handler_name = ap (λ (r : ExecutionPoolBinding). r.handler_name) (sym e);
              status = ap (λ (r : ExecutionPoolBinding). or_binding_enabled r.status) (sym e);
            },
          )
          | inr k ↦ ih.bound d k
        ];
      } in
    subst (λ new. Inserted tenant (c ∷ bs) w.pool_tables.bindings new)
      (ap (λ r. r.1.pool_tables.bindings) (sym then_rest)) whole
