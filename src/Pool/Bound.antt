-- ===== src/Pool/Bound.antt =====
-- A successful binding of handlers of a pool.
use etask.Base.{
  String, ◌≡◌, refl, sym, ap, ◌∙◌, subst, arith, true, false, not, List, [], ◌∷◌, map, inl, inr,
  ◌==◌, str_eq, Member, length, trim_space,
}
use etask.Errs.{ok}
use etask.Domain.Pool.{
  ExecutionPool, ExecutionPoolBinding, is_dedicated, is_binding_enabled, normalize_handler_name,
}
use etask.Store.{World}
use etask.Store.Action.{◌>>=◌, ◌>>◌}
use etask.Store.Reading.{quiet-then, ok-same}
use etask.Pool.Tables.{find_pool, is_none}
use etask.Pool.Binding.{
  BindingManyRequest, uniq_from, binding_names, validate_pool_handlers, ensure_binding_creatable,
  create_for, new_binding, renormalized, bind_many,
}
use etask.Pool.Names.{normalize-normalize}
use etask.Pool.Created.{rows_of, Alone}
use etask.Pool.Checks.{
  require-then, normalize-then, find_pool-IsQuiet, validate_pool_handlers-IsQuiet,
  ensure_binding_creatable-IsQuiet,
}
use etask.Pool.Binds.{Created, create_for-Created, uniq_from-Member, IsEnabledFor}

abbrev asked : String → String → String → ExecutionPoolBinding
asked pool desc name = renormalized (new_binding pool desc name)

Member-map :
    {A B : Type 0} (f : A → B) (x : A) (xs : List A) → Member x xs → Member (f x) (map f xs)
Member-map f x [] m = elim m [ ]
Member-map f x (y ∷ ys) (inl e) = inl (ap f e)
Member-map f x (y ∷ ys) (inr m) = inr (Member-map f x ys m)

some_asked :
    (pool desc : String) (names : List String)
    → (length names == 0) ≡ false
    → is_none (map (asked pool desc) (binding_names names)) ≡ false
unfolding uniq_from
some_asked pool desc [] h = absurd (ground arith)
some_asked pool desc (n ∷ ns) h = refl

name_kept :
    (handler : String) (names : List String)
    → Member handler names
    → Member (normalize_handler_name handler) (binding_names names)
name_kept handler names m =
    let mapped = Member-map normalize_handler_name handler names m in
    elim (uniq_from-Member (normalize_handler_name handler) [] (map normalize_handler_name names)
      mapped) [ inl e ↦ absurd (ground arith) | inr k ↦ k ]

module _ (req : BindingManyRequest) (w : World) (p : ExecutionPool) where
  abbrev pool_asked : String
  pool_asked = trim_space req.pool_name

  abbrev all_asked : List ExecutionPoolBinding
  all_asked = map (asked pool_asked (trim_space req.desc)) (binding_names req.handler_names)

  -- past its checks, a successful call is the creation
  bind_many-Created :
      (find_pool pool_asked w).0 ≡ ok p
      → (bind_many req w).0 ≡ ok tt
      → Created w p pool_asked all_asked (rows_of (bind_many req w).1)
  unfolding bind_many
  bind_many-Created there h =
      let names = binding_names req.handler_names in
      let create = λ (q : ExecutionPool). create_for q pool_asked all_asked in
      let ensure = λ (q : ExecutionPool). ensure_binding_creatable pool_asked names >> create q in
      let validate = λ (q : ExecutionPool). validate_pool_handlers q names >> ensure q in
      let (nonblank, at1) = require-then (not (str_eq pool_asked "")) _ w tt h in
      let h1 = ap (λ r. r.0) (sym at1) ∙ h in
      let (some_name, at2) = normalize-then req.handler_names _ w tt h1 in
      let h2 : ((find_pool pool_asked >>= validate) w).0 ≡ ok tt = ap (λ r. r.0) (sym at2) ∙ h1 in
      let (q, r3, is, at3) =
        quiet-then w tt (find_pool pool_asked) validate (find_pool-IsQuiet pool_asked w) h2 in
      let w3 : World = record w { faults = r3 } in
      let h3 : (validate q w3).0 ≡ ok tt = ap (λ r. r.0) (sym at3) ∙ h2 in
      let (u, r4, fine, at4) =
        quiet-then w3 tt (validate_pool_handlers q names) (λ _. ensure q)
          (validate_pool_handlers-IsQuiet q names w3) h3 in
      let w4 : World = record w { faults = r4 } in
      let h4 : (ensure q w4).0 ≡ ok tt = ap (λ r. r.0) (sym at4) ∙ h3 in
      let (u5, r5, free, at5) =
        quiet-then w4 tt (ensure_binding_creatable pool_asked names) (λ _. create q)
          (ensure_binding_creatable-IsQuiet pool_asked names w4) h4 in
      let w5 : World = record w { faults = r5 } in
      let h5 : (create q w5).0 ≡ ok tt = ap (λ r. r.0) (sym at5) ∙ h4 in
      let made =
        create_for-Created q pool_asked all_asked w5
          (some_asked pool_asked (trim_space req.desc) req.handler_names some_name) h5 in
      let found_pool : q ≡ p = ok-same q p (sym is ∙ there) in
      let steps : bind_many req w ≡ create q w5 = at1 ∙ at2 ∙ at3 ∙ at4 ∙ at5 in
      let here : Created w q pool_asked all_asked (rows_of (create q w5).1) = record {
        inserted = made.inserted;
        alone = made.alone;
      } in
      subst (λ r. Created w p pool_asked all_asked (rows_of r.1)) (sym steps)
        (subst (λ k. Created w k pool_asked all_asked (rows_of (create q w5).1)) found_pool here)

-- Where the pool is found, a call of BindMany that succeeds leaves each of its handlers bound to
-- the tenant of the context, enabled, under its normalized name.
pub bind_many-binds :
    (req : BindingManyRequest) (w : World) (p : ExecutionPool) (handler : String)
    → (find_pool (trim_space req.pool_name) w).0 ≡ ok p
    → (bind_many req w).0 ≡ ok tt
    → Member handler req.handler_names
    → (b : ExecutionPoolBinding) × Member b (rows_of (bind_many req w).1)
      × IsEnabledFor w.tenant (trim_space req.pool_name) (normalize_handler_name handler) b
bind_many-binds req w p handler there h m =
    let name = normalize_handler_name handler in
    let ask = asked (trim_space req.pool_name) (trim_space req.desc) in
    let asks = Member-map ask name _ (name_kept handler req.handler_names m) in
    let (b, at, row) = (bind_many-Created req w p there h).inserted.bound (ask name) asks in
    (
      b,
      at,
      record {
        tenant_id = row.tenant_id;
        pool_name = row.pool_name;
        handler_name = row.handler_name ∙ normalize-normalize handler;
        enabled = ap is_binding_enabled row.status;
      },
    )

-- Where the pool is found and is a dedicated one, a call of BindMany that succeeds leaves every
-- binding of the pool with the tenant of the context, and every earlier row still in the table.
pub bind_many-Alone :
    (req : BindingManyRequest) (w : World) (p : ExecutionPool)
    → (find_pool (trim_space req.pool_name) w).0 ≡ ok p
    → is_dedicated p.isolation_level ≡ true
    → (bind_many req w).0 ≡ ok tt
    → Alone w (trim_space req.pool_name) w.tenant (rows_of (bind_many req w).1)
      × ((b : ExecutionPoolBinding) → Member b (rows_of w) → Member b (rows_of (bind_many req w).1))
bind_many-Alone req w p there e h =
    let made = bind_many-Created req w p there h in (made.alone e, made.inserted.kept)
