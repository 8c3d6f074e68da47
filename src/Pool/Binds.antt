-- ===== src/Pool/Binds.antt =====
-- What a successful binding leaves: the handlers bound, other rows as they were, and a dedicated
-- pool with one tenant.
use etask.Base.{
  ℕ, String, ◌≡◌, ◌⊎◌, refl, sym, ap, ◌∙◌, subst, arith, Bool, true, false, List, [], ◌∷◌, inl, inr,
  str_eq, str_eq_iff, if◌then◌else◌, Bool-cases, Member,
}
use etask.Errs.{ok}
use etask.Domain.Pool.{ExecutionPool, ExecutionPoolBinding, is_dedicated, is_binding_enabled}
use etask.Store.{World}
use etask.Store.Action.{pure, fail, gets, ◌>>=◌}
use etask.Store.Inversion.{bind-ok, transaction-ok}
use etask.Pool.Tables.{create_batch, create_dedicated_batch, create_unless_occupied, is_none}
use etask.Pool.Binding.{contains, uniq_from, create_for, refuse_occupied}
use etask.Pool.Inserted.{Inserted}
use etask.Pool.Created.{rows_of, Alone, create_batch-Inserted, create_unless_occupied-ok}

-- The rows after a creation for a tenant in a pool that stood so before.
pub record Created (w : World) (p : ExecutionPool) (pool : String)
    (bs after : List ExecutionPoolBinding) : Type 0 where
  pub inserted : Inserted w.tenant bs (rows_of w) after
  pub alone : is_dedicated p.isolation_level ≡ true → Alone w pool w.tenant after

create_dedicated-ok :
    (tenant : ℕ) (pool : String) (bs : List ExecutionPoolBinding) (w : World)
    → is_none bs ≡ false
    → (create_dedicated_batch tenant pool bs w).0 ≡ ok false
    → Inserted tenant bs (rows_of w) (rows_of (create_dedicated_batch tenant pool bs w).1)
      × Alone w pool tenant (rows_of (create_dedicated_batch tenant pool bs w).1)
unfolding create_dedicated_batch
create_dedicated-ok tenant pool [] w some_row h = absurd (ground arith)
create_dedicated-ok tenant pool (b ∷ bs) w some_row h =
    let body = create_unless_occupied tenant pool (b ∷ bs) in
    let (rest, done, e) = transaction-ok body w false h in
    subst
      (λ r. Inserted tenant (b ∷ bs) (rows_of w) (rows_of r.1) × Alone w pool tenant (rows_of r.1))
      (sym e) (create_unless_occupied-ok tenant pool (b ∷ bs) w done)

refuse-ok :
    (occupied : Bool) (w : World)
    → (refuse_occupied occupied w).0 ≡ ok tt
    → (occupied ≡ false) × ((refuse_occupied occupied w).1 ≡ w)
unfolding fail pure
refuse-ok true w h = absurd (ground arith)
refuse-ok false w h = (refl, refl)

module _ (p : ExecutionPool) (pool : String) (bs : List ExecutionPoolBinding) (w : World) where
  create_for-dedicated :
      is_dedicated p.isolation_level ≡ true
      → create_for p pool bs w ≡ (create_dedicated_batch w.tenant pool bs >>= refuse_occupied) w
  unfolding create_for ◌>>=◌ gets
  create_for-dedicated e = rw e refl

  create_for-shared :
      is_dedicated p.isolation_level ≡ false → create_for p pool bs w ≡ create_batch bs w
  unfolding create_for
  create_for-shared e = rw e refl

  pub create_for-Created :
      is_none bs ≡ false
      → (create_for p pool bs w).0 ≡ ok tt
      → Created w p pool bs (rows_of (create_for p pool bs w).1)
  create_for-Created some_row h = elim (Bool-cases (is_dedicated p.isolation_level)) [
    | inl e ↦
        let create = create_dedicated_batch w.tenant pool bs in
        let at = create_for-dedicated e in
        let (occupied, first, then_rest) =
          bind-ok create refuse_occupied w tt (ap (λ r. r.0) (sym at) ∙ h) in
        let whole = at ∙ then_rest in
        let (free, stays) = refuse-ok occupied (create w).1 (ap (λ r. r.0) (sym whole) ∙ h) in
        let (inserted, alone) =
          create_dedicated-ok w.tenant pool bs w some_row (first ∙ ap ok free) in
        let made : Created w p pool bs (rows_of (create w).1) = record {
          inserted = inserted;
          alone = λ _. alone;
        } in
        subst (λ v. Created w p pool bs (rows_of v)) (sym (ap (λ r. r.1) whole ∙ stays)) made
    | inr e ↦
        let at = create_for-shared e in
        let made : Created w p pool bs (rows_of (create_batch bs w).1) = record {
          inserted = create_batch-Inserted bs w (ap (λ r. r.0) (sym at) ∙ h);
          alone = λ f. absurd (ground arith);
        } in
        subst (λ r. Created w p pool bs (rows_of r.1)) (sym at) made
  ]

uniq-step :
    (x y : String) (seen rest : List String)
    → (contains y seen ≡ true → x ≡ y → contains x seen ≡ true)
    → (x ≡ y) ⊎ Member x rest
    → (contains x seen ≡ true) ⊎ Member x (if contains y seen then rest else y ∷ rest)
uniq-step x y seen rest h m = elim (Bool-cases (contains y seen)) [
  | inl e ↦ elim m [ inl same ↦ inl (h e same) | inr k ↦ inr (rw e k) ]
  | inr e ↦ inr (rw e m)
]

-- Each name is among the names that stay.
pub uniq_from-Member :
    (x : String) (seen xs : List String)
    → Member x xs
    → (contains x seen ≡ true) ⊎ Member x (uniq_from seen xs)
unfolding uniq_from
uniq_from-Member x seen [] m = elim m [ ]
uniq_from-Member x seen (y ∷ ys) m =
    let step =
      uniq-step x y seen (uniq_from (y ∷ seen) ys)
        (λ e same. subst (λ z. contains z seen ≡ true) (sym same) e) in
    elim m [
      | inl same ↦ step (inl same)
      | inr k ↦ elim (uniq_from-Member x (y ∷ seen) ys k) [
        | inr kept ↦ step (inr kept)
        | inl before ↦ elim (Bool-cases (str_eq x y)) [
          | inl e ↦ step (inl ((str_eq_iff x y).0 e))
          | inr e ↦ inl (rw e at before)
        ]
      ]
    ]

-- The binding of a handler of a pool to a tenant, enabled.
pub record IsEnabledFor (tenant : ℕ) (pool handler : String) (b : ExecutionPoolBinding)
    : Type 0 where
  pub tenant_id : b.tenant_id ≡ tenant
  pub pool_name : b.pool_name ≡ pool
  pub handler_name : b.handler_name ≡ handler
  pub enabled : is_binding_enabled b.status ≡ true
