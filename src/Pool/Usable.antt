-- ===== src/Pool/Usable.antt =====
-- The answer of the service about a pool and a handler is that of the matcher.
use etask.Base.{
  List, String, ◌≡◌, refl, sym, ap, ◌∙◌, Bool, true, false, not, ◌&&◌, ◌||◌, Option, none, some,
  inl, inr, leb, ◌==◌, str_eq, str_eq_iff, Bool-cases, Option-cases, first_where, keep_where,
  count_where, head?, subst, none_where,
}
use etask.Domain.Pool.{
  ExecutionPoolBindingStatus, no_binding_status, ExecutionPoolBinding, is_binding_enabled,
  normalize_handler_name,
}
use etask.Store.{World}
use etask.Pool.Tables.{visible, own, same_text, effective_row, exact_rank}
use etask.Pool.Matcher.{BindingMatcher, allow, new_binding_matcher, no_matcher}
use etask.Pool.Agreement.{
  or_else, watch-add_bindings, first_where-keep_where, first_where-or, head?-sort_by,
  count_where-first,
}
use etask.Pool.Allowed.{
  exact_of, wild_of, judge, sets_exact, sets_wild, permits_handler-judge, granted-exact,
  granted-wild, add_binding-sets, IsBound, str_eq_sym, never, own-sets_exact, own-sets_wild,
}

abbrev status_of : ExecutionPoolBinding → ExecutionPoolBindingStatus
status_of b = b.status

abbrev some_status : ExecutionPoolBinding → Option ExecutionPoolBindingStatus
some_status b = some b.status

abbrev pub row_enabled : ExecutionPoolBinding → Bool
row_enabled b = is_binding_enabled b.status

judge-rows :
    (exact wild : Option ExecutionPoolBinding)
    → judge (or_else none some_status exact) (or_else no_binding_status status_of wild)
      ≡ or_else false row_enabled (or_else wild some exact)
judge-rows none none = refl
judge-rows none (some b) = refl
judge-rows (some b) wild = refl

judge-wild :
    (wild : Option ExecutionPoolBinding)
    → judge none (or_else no_binding_status status_of wild) ≡ or_else false row_enabled wild
judge-wild none = refl
judge-wild (some b) = refl

module _ (w : World) (pool : String) where
  abbrev seen_rows : List ExecutionPoolBinding
  seen_rows = keep_where (visible w) w.pool_tables.bindings

  abbrev built : BindingMatcher
  built = new_binding_matcher seen_rows

  built-exact :
      (h : String)
      → IsBound w pool h
      → str_eq h "" ≡ false
      → exact_of h (built.pools pool)
        ≡ or_else none some_status (first_where (own pool h w) w.pool_tables.bindings)
  unfolding new_binding_matcher
  built-exact h bound e =
      let (firsts, counts) =
        first_where-keep_where (sets_exact pool h) (visible w) (own pool h w) w.pool_tables.bindings
          (λ b m. own-sets_exact w pool h bound b e m) in
      watch-add_bindings (λ m. exact_of h (m.pools pool)) (sets_exact pool h) some_status
        (add_binding-sets (exact_of h) (λ n. not (str_eq n "") && str_eq h n) some (granted-exact h)
          pool)
        no_matcher seen_rows (subst (λ n. leb n 1 ≡ true) (sym counts) bound.one_row)
      ∙ ap (or_else none some_status) firsts

  built-wild :
      (h : String)
      → IsBound w pool h
      → wild_of (built.pools pool)
        ≡ or_else no_binding_status status_of (first_where (own pool "" w) w.pool_tables.bindings)
  unfolding new_binding_matcher
  built-wild h bound =
      let (firsts, counts) =
        first_where-keep_where (sets_wild pool) (visible w) (own pool "" w) w.pool_tables.bindings
          (own-sets_wild w pool h bound) in
      watch-add_bindings (λ m. wild_of (m.pools pool)) (sets_wild pool) status_of
        (add_binding-sets wild_of (λ n. str_eq n "") (λ s. s) granted-wild pool) no_matcher
        seen_rows (subst (λ n. leb n 1 ≡ true) (sym counts) bound.one_wildcard)
      ∙ ap (or_else no_binding_status status_of) firsts

  -- no handler is named ""
  built-nameless : exact_of "" (built.pools pool) ≡ none
  unfolding new_binding_matcher
  built-nameless =
      let p = sets_exact pool "" in
      let bs = seen_rows in
      let nought : count_where p bs ≡ 0 =
        (none_where p (λ b. b) bs
          (λ b m.
            never (str_eq pool b.pool_name) (str_eq (normalize_handler_name b.handler_name) "")
              (str_eq "" (normalize_handler_name b.handler_name))
              (str_eq_sym (normalize_handler_name b.handler_name) ""))).0 in
      watch-add_bindings (λ m. exact_of "" (m.pools pool)) p some_status
        (add_binding-sets (exact_of "") (λ n. not (str_eq n "") && str_eq "" n) some
          (granted-exact "") pool)
        no_matcher bs (subst (λ n. leb n 1 ≡ true) (sym nought) refl)
      ∙ ap (or_else none some_status) (count_where-first p bs nought)

  either_name : (v p x y : Bool) → v && (p && x) ≡ (v && (p && x) || v && (p && y)) && x
  either_name true true true y = refl
  either_name true true false true = refl
  either_name true true false false = refl
  either_name true false x y = refl
  either_name false p x y = refl

  rank-short : (h : String) (b : ExecutionPoolBinding) → leb (exact_rank h w b) 1 ≡ true
  rank-short h b = elim (Bool-cases (same_text w b.handler_name h)) [
    | inl e ↦ rw e refl
    | inr e ↦ rw e refl
  ]

  rank-nought :
      (h : String) (b : ExecutionPoolBinding)
      → (exact_rank h w b == 0) ≡ same_text w b.handler_name h
  rank-nought h b = elim (Bool-cases (same_text w b.handler_name h)) [
    | inl e ↦ rw e refl
    | inr e ↦ rw e refl
  ]

  effective-named :
      (h : String)
      → str_eq h "" ≡ false
      → effective_row pool h w
        ≡ or_else
            (first_where (own pool "" w) w.pool_tables.bindings)
            some
            (first_where (own pool h w) w.pool_tables.bindings)
  effective-named h e =
      let rows = w.pool_tables.bindings in
      let key = exact_rank h w in
      let q = λ (b : ExecutionPoolBinding). own pool h w b || own pool "" w b in
      let exact : first_where (λ b. key b == 0) (keep_where q rows)
          ≡ first_where (own pool h w) rows =
        (first_where-keep_where (λ b. key b == 0) q (own pool h w) rows
          (λ b m.
            either_name (visible w b) (same_text w b.pool_name pool) (same_text w b.handler_name h)
              (same_text w b.handler_name "")
            ∙ ap (λ t. q b && t) (sym (rank-nought h b)))).0 in
      let ranked = head?-sort_by key (rank-short h) (keep_where q rows) in
      rw e (
        ranked
        ∙ ap (or_else (head? (keep_where q rows)) some) exact
        ∙ elim (Option-cases (first_where (own pool h w) rows)) [
          | inl f ↦ rw f (first_where-or (own pool h w) (own pool "" w) q rows (λ b. refl) f)
          | inr (b, f) ↦ rw f refl
        ])

  -- The matcher allows what the effective binding enables.
  pub allow-effective :
      (handler : String)
      → IsBound w pool (normalize_handler_name handler)
      → allow built pool handler
        ≡ or_else false row_enabled (effective_row pool (normalize_handler_name handler) w)
  unfolding allow
  allow-effective handler bound =
      let h = normalize_handler_name handler in
      let wild = first_where (own pool "" w) w.pool_tables.bindings in
      permits_handler-judge h (built.pools pool)
      ∙ ap (judge (exact_of h (built.pools pool))) (built-wild h bound)
      ∙ elim (Bool-cases (str_eq h "")) [
        | inl e ↦
            ap (λ o. judge o (or_else no_binding_status status_of wild))
              (subst (λ k. exact_of k (built.pools pool) ≡ none) (sym ((str_eq_iff h "").0 e))
                built-nameless)
            ∙ judge-wild wild
            ∙ rw e refl
        | inr e ↦
            ap (λ o. judge o (or_else no_binding_status status_of wild)) (built-exact h bound e)
            ∙ judge-rows (first_where (own pool h w) w.pool_tables.bindings) wild
            ∙ ap (or_else false row_enabled) (sym (effective-named h e))
      ]
