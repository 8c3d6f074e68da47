-- ===== src/Pool/Answers.antt =====
-- The calls of the service that asks, where no statement fails.
use etask.Base.{
  String, ◌≡◌, refl, sym, ap, ◌∙◌, false, ◌&&◌, [], Option, none, some, inl, inr, str_eq,
  Bool-cases, first_where, keep_where, trim_space,
}
use etask.Errs.{ok}
use etask.Domain.Pool.{ExecutionPool, ExecutionPoolBinding, is_pool_enabled, normalize_handler_name}
use etask.Store.{World}
use etask.Store.Action.{pure, try, throw, gets, select, found, statement, ◌>>=◌, continue}
use etask.Pool.Tables.{
  find_pool_by_name, find_mq_by_topic, find_pool, find_effective, effective_row, visible,
  by_topic_unless_found, pool_named,
}
use etask.Pool.Matcher.{allow, new_binding_matcher}
use etask.Pool.Binding.{is_allowed, usable, bound_enabled}
use etask.Pool.Agreement.{or_else}
use etask.Pool.Allowed.{IsBound}
use etask.Pool.Names.{normalize-normalize}
use etask.Pool.Usable.{row_enabled, allow-effective}

module _ (w : World) (calm : w.faults ≡ []) where
  select-calm : {A : Type 0} (f : World → A) → select f w ≡ (ok (f w), w)
  unfolding select statement gets
  select-calm f = rw calm refl

  first-calm :
      {A : Type 0} (f : World → Option A) → (select f >>= λ r. throw (found r)) w ≡ (found (f w), w)
  unfolding ◌>>=◌ throw
  first-calm f = ap (λ r. continue r.0 (λ o. throw (found o)) r.1) (select-calm f)

  find_pool_by_name-calm :
      (name : String)
      → find_pool_by_name name w ≡ (found (first_where (pool_named name w) w.pool_tables.pools), w)
  unfolding find_pool_by_name
  find_pool_by_name-calm name =
      first-calm (λ v. first_where (pool_named name v) v.pool_tables.pools)

  by_topic-calm :
      (name : String) (o : Option ExecutionPool) → (by_topic_unless_found name (found o) w).1 ≡ w
  unfolding found pure find_mq_by_topic
  by_topic-calm name none = ap (λ r. r.1) (first-calm _)
  by_topic-calm name (some p) = refl

  find_pool-calm : (name : String) → (find_pool name w).1 ≡ w
  unfolding find_pool try ◌>>=◌
  find_pool-calm name =
      ap (λ r. (by_topic_unless_found name r.0 r.1).1) (find_pool_by_name-calm name)
      ∙ by_topic-calm name (first_where (pool_named name w) w.pool_tables.pools)

  bound_enabled-found :
      (o : Option ExecutionPoolBinding)
      → (bound_enabled (found o) w).0 ≡ ok (or_else false row_enabled o)
  unfolding found pure
  bound_enabled-found none = refl
  bound_enabled-found (some b) = refl

  find_effective-calm :
      (pool handler : String)
      → find_effective pool (normalize_handler_name handler) w
        ≡ (found (effective_row pool (normalize_handler_name handler) w), w)
  unfolding find_effective
  find_effective-calm pool handler =
      first-calm (
        effective_row pool
          (normalize_handler_name (normalize_handler_name (normalize_handler_name handler))))
      ∙ ap (λ h. (found (effective_row pool h w), w))
          (normalize-normalize (normalize_handler_name handler) ∙ normalize-normalize handler)

  ask_effective :
      (pool handler : String)
      → ((try (find_effective pool (normalize_handler_name handler)) >>= bound_enabled) w).0
        ≡ ok (or_else false row_enabled (effective_row pool (normalize_handler_name handler) w))
  unfolding try ◌>>=◌
  ask_effective pool handler =
      ap (λ r. (bound_enabled r.0 r.1).0) (find_effective-calm pool handler)
      ∙ bound_enabled-found (effective_row pool (normalize_handler_name handler) w)

  module _ (pool handler : String) (bound : IsBound w pool (normalize_handler_name handler))
      (p : ExecutionPool) where
    usable-allow :
        (usable pool (normalize_handler_name handler) (ok p) w).0
        ≡ ok (
            is_pool_enabled p.status
            && allow
                (new_binding_matcher (keep_where (visible w) w.pool_tables.bindings))
                pool
                handler)
    unfolding pure
    usable-allow = elim (Bool-cases (is_pool_enabled p.status)) [
      | inl e ↦
          rw e (ask_effective pool handler ∙ ap ok (sym (allow-effective w pool handler bound)))
      | inr e ↦ rw e refl
    ]

-- Where no statement fails, for a pool name that is not blank and is found, and where the bindings
-- that the tenant of the context sees are as the unique index and the normalization leave them and
-- the collation of the columns takes none of their names for the asked one (or for "") that is
-- spelled in another way: the service allows a handler exactly if the pool is enabled and the
-- matcher that is built in memory from the tenant's bindings allows it. The collation may still take
-- other names for equal, as one that ignores case does.
pub is_allowed-allow :
    (w : World)
    → w.faults ≡ []
    → (pool handler : String) (p : ExecutionPool)
    → IsBound w (trim_space pool) (normalize_handler_name handler)
    → str_eq (trim_space pool) "" ≡ false
    → (find_pool (trim_space pool) w).0 ≡ ok p
    → (is_allowed pool handler w).0
      ≡ ok (
          is_pool_enabled p.status
          && allow
              (new_binding_matcher (keep_where (visible w) w.pool_tables.bindings))
              (trim_space pool)
              handler)
unfolding is_allowed try ◌>>=◌ pure
is_allowed-allow w calm pool handler p bound named_pool there =
    let name = trim_space pool in
    let same : (find_pool name w) ≡ (ok p, w) = λ i. (there i, find_pool-calm w calm name i) in
    rw named_pool (
      ap (λ r. (usable name (normalize_handler_name handler) r.0 r.1).0) same
      ∙ usable-allow w calm name handler bound p)
