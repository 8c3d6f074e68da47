-- ===== src/Pool/Created.antt =====
-- What the creation of bindings leaves in the table, in a pool of either isolation.
use etask.Base.{
  ℕ, String, ◌≡◌, refl, sym, ap, ◌∙◌, subst, arith, Bool, true, false, List, [], ◌∷◌, inl, inr, ltb,
  ◌==◌, ==→eq, not, ◌&&◌, if◌then◌else◌, Bool-cases, Member, count_where, count_where-none,
}
use etask.Errs.{ok}
use etask.Domain.Pool.{ExecutionPoolBinding}
use etask.Store.{World}
use etask.Store.Action.{Action, pure, gets, select, found, statement, ◌>>=◌, ◌>>◌}
use etask.Store.Inversion.{bind-ok, statement-ok, transaction-ok}
use etask.Store.Quiet.{IsQuiet, IsQuiet-bind, IsQuiet-throw}
use etask.Store.Reading.{IsQuiet-select, quiet-then, select-then}
use etask.Pool.Tables.{
  insert_bindings, create_batch, create_unless_occupied, find_pool_by_name, of_pool,
}
use etask.Pool.Inserted.{Inserted, insert_bindings-Inserted}

abbrev pub rows_of : World → List ExecutionPoolBinding
rows_of w = w.pool_tables.bindings

empty-Inserted : (tenant : ℕ) (rows : List ExecutionPoolBinding) → Inserted tenant [] rows rows
empty-Inserted tenant rows = record {
  kept = λ b m. m;
  from = λ b m. inl m;
  bound = λ c m. elim m [ ];
}

pub insert_statement-Inserted :
    (tenant : ℕ) (bs : List ExecutionPoolBinding) (w : World)
    → (statement (insert_bindings tenant bs) w).0 ≡ ok tt
    → Inserted tenant bs (rows_of w) (rows_of (statement (insert_bindings tenant bs) w).1)
insert_statement-Inserted tenant bs w h =
    let (rest, e) = statement-ok (insert_bindings tenant bs) w tt h in
    subst (λ r. Inserted tenant bs (rows_of w) (rows_of r.1)) (sym e)
      (insert_bindings-Inserted tenant bs (record w { faults = rest }) (ap (λ r. r.0) (sym e) ∙ h))

pub create_batch-Inserted :
    (bs : List ExecutionPoolBinding) (w : World)
    → (create_batch bs w).0 ≡ ok tt
    → Inserted w.tenant bs (rows_of w) (rows_of (create_batch bs w).1)
unfolding create_batch ◌>>=◌ gets pure
create_batch-Inserted [] w h = empty-Inserted w.tenant (rows_of w)
create_batch-Inserted (b ∷ bs) w h =
    let body = statement (insert_bindings w.tenant (b ∷ bs)) in
    let (rest, done, e) = transaction-ok body w tt h in
    subst (λ r. Inserted w.tenant (b ∷ bs) (rows_of w) (rows_of r.1)) (sym e)
      (insert_statement-Inserted w.tenant (b ∷ bs) w done)

pub find_pool_by_name-IsQuiet : (name : String) (w : World) → IsQuiet (find_pool_by_name name) w
unfolding find_pool_by_name
find_pool_by_name-IsQuiet name w =
    IsQuiet-bind _ _ w (IsQuiet-select _ w) (λ o _. IsQuiet-throw (found o) _)

-- No row of the pool is another tenant's.
abbrev pub Alone : World → String → ℕ → List ExecutionPoolBinding → Type 0
Alone w pool tenant rows =
    (b : ExecutionPoolBinding) → Member b rows → of_pool pool w b ≡ true → b.tenant_id ≡ tenant

module _ (tenant : ℕ) (pool : String) (bs : List ExecutionPoolBinding) where
  abbrev insert_unless : Bool → Action Bool
  insert_unless occupied =
      if occupied then pure true else (statement (insert_bindings tenant bs) >> pure false)

  insert_unless-ok :
      (occupied : Bool) (w : World)
      → (insert_unless occupied w).0 ≡ ok false
      → (occupied ≡ false) × Inserted tenant bs (rows_of w) (rows_of (insert_unless occupied w).1)
  unfolding pure
  insert_unless-ok true w h = absurd (ground arith)
  insert_unless-ok false w h =
      let insert = statement (insert_bindings tenant bs) in
      let (u, first, then_rest) = bind-ok insert (λ _. pure false) w false h in
      (
        refl,
        subst (λ r. Inserted tenant bs (rows_of w) (rows_of r.1)) (sym then_rest)
            (insert_statement-Inserted tenant bs w first),
      )

  abbrev others_row : World → ExecutionPoolBinding → Bool
  others_row w b = of_pool pool w b && not (b.tenant_id == tenant)

  insert-Alone :
      (w : World) (rows : List ExecutionPoolBinding)
      → ltb 0 (count_where (others_row w) (rows_of w)) ≡ false
      → Inserted tenant bs (rows_of w) rows
      → Alone w pool tenant rows
  insert-Alone w rows none_else done b m here = elim (done.from b m) [
    | inl old ↦
        let free : (count_where (others_row w) (rows_of w) == 0) ≡ true = ground arith in
        let not_others = count_where-none (others_row w) b (rows_of w) free old in
        elim (Bool-cases (b.tenant_id == tenant)) [
          | inl e ↦ ==→eq b.tenant_id tenant e
          | inr e ↦ absurd (ground arith)
        ]
    | inr e ↦ e
  ]

  -- the lock on the pool, the count, and the INSERT
  pub create_unless_occupied-ok :
      (w : World)
      → (create_unless_occupied tenant pool bs w).0 ≡ ok false
      → Inserted tenant bs (rows_of w) (rows_of (create_unless_occupied tenant pool bs w).1)
        × Alone w pool tenant (rows_of (create_unless_occupied tenant pool bs w).1)
  unfolding create_unless_occupied
  create_unless_occupied-ok w h =
      let count = λ (v : World). count_where (others_row v) (rows_of v) in
      let rest_of = λ (n : ℕ). insert_unless (ltb 0 n) in
      let counting : Action Bool = select count >>= rest_of in
      let (p, r, there, at) =
        quiet-then w false (find_pool_by_name pool) (λ _. counting)
          (find_pool_by_name-IsQuiet pool w) h in
      let w1 : World = record w { faults = r } in
      let h1 : (counting w1).0 ≡ ok false = ap (λ x. x.0) (sym at) ∙ h in
      let (r2, at2) = select-then w1 false count rest_of (λ rest. refl) h1 in
      let w2 : World = record w { faults = r2 } in
      let (free, done) = insert_unless-ok (ltb 0 (count w)) w2 (ap (λ x. x.0) (sym at2) ∙ h1) in
      subst (λ x. Inserted tenant bs (rows_of w) (rows_of x.1) × Alone w pool tenant (rows_of x.1))
        (sym (at ∙ at2)) (done, insert-Alone w _ free done)
