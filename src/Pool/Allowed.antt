-- ===== src/Pool/Allowed.antt =====
-- Whether a tenant may use a handler: the answer of the service, and that of the matcher built from
-- the tenant's bindings.
use etask.Base.{
  String, ◌≡◌, refl, sym, ap, ◌∙◌, Bool, true, false, not, ◌&&◌, List, Option, none, some, inl, inr,
  leb, str_eq, str_eq_iff, if◌then◌else◌, Bool-cases, Member, count_where, subst,
}
use etask.Domain.Pool.{
  ExecutionPoolBindingStatus, no_binding_status, ExecutionPoolBinding, is_binding_enabled,
  normalize_handler_name,
}
use etask.Store.{World}
use etask.Pool.Tables.{visible, own, same_text}
use etask.Pool.Matcher.{
  BindingMatcher, BindingPermission, add_binding, permits, permits_handler, granted,
  permission_or_new,
}

abbrev pub exact_of : String → Option BindingPermission → Option ExecutionPoolBindingStatus
exact_of h none = none
exact_of h (some p) = p.handlers h

abbrev pub wild_of : Option BindingPermission → ExecutionPoolBindingStatus
wild_of none = no_binding_status
wild_of (some p) = p.wildcard

abbrev pub judge : Option ExecutionPoolBindingStatus → ExecutionPoolBindingStatus → Bool
judge (some s) w = is_binding_enabled s
judge none w = is_binding_enabled w

permits-judge :
    (p : BindingPermission) (o : Option ExecutionPoolBindingStatus)
    → permits p o ≡ judge o p.wildcard
permits-judge p none = refl
permits-judge p (some s) = refl

pub permits_handler-judge :
    (h : String) (o : Option BindingPermission)
    → permits_handler h o ≡ judge (exact_of h o) (wild_of o)
permits_handler-judge h none = refl
permits_handler-judge h (some p) = permits-judge p (p.handlers h)

pub granted-exact :
    (h n : String) (s : ExecutionPoolBindingStatus) (o : Option BindingPermission)
    → exact_of h (some (granted n s (permission_or_new o)))
      ≡ (if not (str_eq n "") && str_eq h n then some s else exact_of h o)
granted-exact h n s none = elim (Bool-cases (str_eq n "")) [ inl e ↦ rw e refl | inr e ↦ rw e refl ]
granted-exact h n s (some p) = elim (Bool-cases (str_eq n "")) [
  | inl e ↦ rw e refl
  | inr e ↦ rw e refl
]

pub granted-wild :
    (n : String) (s : ExecutionPoolBindingStatus) (o : Option BindingPermission)
    → wild_of (some (granted n s (permission_or_new o))) ≡ (if str_eq n "" then s else wild_of o)
granted-wild n s none = elim (Bool-cases (str_eq n "")) [ inl e ↦ rw e refl | inr e ↦ rw e refl ]
granted-wild n s (some p) = elim (Bool-cases (str_eq n "")) [
  | inl e ↦ rw e refl
  | inr e ↦ rw e refl
]

abbrev pub sets_exact : String → String → ExecutionPoolBinding → Bool
sets_exact pool h b =
    let n = normalize_handler_name b.handler_name in
    str_eq pool b.pool_name && (not (str_eq n "") && str_eq h n)

abbrev pub sets_wild : String → ExecutionPoolBinding → Bool
sets_wild pool b = str_eq pool b.pool_name && str_eq (normalize_handler_name b.handler_name) ""

module _ {S : Type 0} (of : Option BindingPermission → S) (p : String → Bool)
    (set : ExecutionPoolBindingStatus → S)
    (at : (n : String) (s : ExecutionPoolBindingStatus) (o : Option BindingPermission)
      → of (some (granted n s (permission_or_new o))) ≡ (if p n then set s else of o)) where
  pub add_binding-sets :
      (pool : String) (m : BindingMatcher) (b : ExecutionPoolBinding)
      → of ((add_binding m b).pools pool) ≡ (
          if str_eq pool b.pool_name && p (normalize_handler_name b.handler_name)
          then set b.status
          else of (m.pools pool))
  unfolding add_binding
  add_binding-sets pool m b = elim (Bool-cases (str_eq pool b.pool_name)) [
    | inl e ↦
        let same : pool ≡ b.pool_name = (str_eq_iff pool b.pool_name).0 e in
        let n = normalize_handler_name b.handler_name in
        rw e (
          at n b.status (m.pools b.pool_name)
          ∙ ap (λ k. if p n then set b.status else of (m.pools k)) (sym same))
    | inr e ↦ rw e refl
  ]

-- What is assumed of the bindings that a tenant sees, for one pool and one normalized handler: at
-- most one row is for the handler and at most one for the whole pool (the unique index); names are
-- stored normalized; and none of the names is one that the collation of the column takes for the
-- asked name although it is spelled in another way.
pub record IsBound (w : World) (pool handler : String) : Type 0 where
  pub one_row : leb (count_where (own pool handler w) w.pool_tables.bindings) 1 ≡ true
  pub one_wildcard : leb (count_where (own pool "" w) w.pool_tables.bindings) 1 ≡ true
  pub named :
      (b : ExecutionPoolBinding)
      → Member b w.pool_tables.bindings
      → visible w b ≡ true
      → normalize_handler_name b.handler_name ≡ b.handler_name
  pub pool_text :
      (b : ExecutionPoolBinding)
      → Member b w.pool_tables.bindings
      → visible w b ≡ true
      → same_text w b.pool_name pool ≡ str_eq b.pool_name pool
  pub handler_text :
      (b : ExecutionPoolBinding)
      → Member b w.pool_tables.bindings
      → visible w b ≡ true
      → same_text w b.handler_name handler ≡ str_eq b.handler_name handler
  pub wildcard_text :
      (b : ExecutionPoolBinding)
      → Member b w.pool_tables.bindings
      → visible w b ≡ true
      → same_text w b.handler_name "" ≡ str_eq b.handler_name ""

pub str_eq_sym : (a b : String) → str_eq a b ≡ str_eq b a
str_eq_sym a b = elim (Bool-cases (str_eq a b)) [
  | inl e ↦ e ∙ sym ((str_eq_iff b a).1 (sym ((str_eq_iff a b).0 e)))
  | inr e ↦ elim (Bool-cases (str_eq b a)) [
    | inl f ↦ (str_eq_iff a b).1 (sym ((str_eq_iff b a).0 f)) ∙ sym f
    | inr f ↦ e ∙ sym f
  ]
]

guarded : (v x y z : Bool) → (z ≡ true → y ≡ false) → v && (x && z) ≡ v && (x && (not y && z))
guarded v x y true h = rw (h refl) refl
guarded v x true false h = refl
guarded v x false false h = refl

pub never : (x y z : Bool) → y ≡ z → x && (not y && z) ≡ false
never true true z h = refl
never true false z h = sym h
never false y z h = refl

where_seen : (v x y : Bool) → (v ≡ true → x ≡ y) → v && x ≡ v && y
where_seen true x y h = h refl
where_seen false x y h = refl

module _ (w : World) (pool handler : String) (bound : IsBound w pool handler) where
  abbrev pub rows : List ExecutionPoolBinding
  rows = w.pool_tables.bindings

  own-text :
      (h : String) (b : ExecutionPoolBinding)
      → Member b rows
      → (visible w b ≡ true → same_text w b.handler_name h ≡ str_eq b.handler_name h)
      → own pool h w b
        ≡ visible w b
          && (str_eq pool b.pool_name && str_eq h (normalize_handler_name b.handler_name))
  own-text h b m exact =
      where_seen (visible w b) (same_text w b.pool_name pool && same_text w b.handler_name h)
        (str_eq pool b.pool_name && str_eq h (normalize_handler_name b.handler_name))
        (λ seen.
          ap (λ t. t && same_text w b.handler_name h)
            (bound.pool_text b m seen ∙ str_eq_sym b.pool_name pool)
          ∙ ap (λ t. str_eq pool b.pool_name && t)
              (exact seen
                ∙ str_eq_sym b.handler_name h
                ∙ ap (str_eq h) (sym (bound.named b m seen))))

  pub own-sets_exact :
      (b : ExecutionPoolBinding)
      → str_eq handler "" ≡ false
      → Member b rows
      → own pool handler w b ≡ visible w b && sets_exact pool handler b
  own-sets_exact b e m =
      let n = normalize_handler_name b.handler_name in
      own-text handler b m (bound.handler_text b m)
      ∙ guarded (visible w b) (str_eq pool b.pool_name) (str_eq n "") (str_eq handler n)
          (λ f. subst (λ k. str_eq k "" ≡ false) ((str_eq_iff handler n).0 f) e)

  pub own-sets_wild :
      (b : ExecutionPoolBinding) → Member b rows → own pool "" w b ≡ visible w b && sets_wild pool b
  own-sets_wild b m =
      own-text "" b m (bound.wildcard_text b m)
      ∙ ap (λ t. visible w b && (str_eq pool b.pool_name && t))
          (str_eq_sym "" (normalize_handler_name b.handler_name))
