-- ===== src/Pool/Tables.antt =====
-- internal/repository/dao/execution_pool.go and internal/repository/execution_pool.go: pools, which
-- every tenant sees, and bindings, of which a tenant sees its own. Columns are compared by their
-- collation.
use etask.Base.{
  ℕ, suc, String, Bool, true, false, not, ◌&&◌, ◌||◌, List, [], ◌∷◌, ◌++◌, Option, ltb, ◌==◌,
  str_eq, if◌then◌else◌, first_where, keep_where, update_where, count_where, any_where, sort_by,
  order_by, head?,
}
use etask.Errs.{Result, ok, err, record_not_found, duplicate_key}
use etask.Domain.Route.{Transport, mq}
use etask.Domain.Pool.{
  ExecutionPool, ExecutionPoolBinding, ExecutionPoolStatus, pool_enabled, pool_disabled,
  no_pool_status, ExecutionPoolBindingStatus, binding_enabled, no_binding_status,
  normalize_handler_name,
}
use etask.Store.{World}
use etask.Store.Action.{
  Action, pure, fail, try, throw, gets, select, found, statement, transaction, ◌>>=◌, ◌>>◌,
}

abbrev pub put_pools : List ExecutionPool → World → World
put_pools pools w = record w { pool_tables = record w.pool_tables { pools = pools } }

abbrev pub put_bindings : List ExecutionPoolBinding → World → World
put_bindings bindings w = record w { pool_tables = record w.pool_tables { bindings = bindings } }

abbrev pub same_text : World → String → String → Bool
same_text w a b = w.library.same_name a b

-- WHERE name = …
abbrev pub pool_named : String → World → ExecutionPool → Bool
pool_named name w p = same_text w p.name name

abbrev or_pool_enabled : ExecutionPoolStatus → ExecutionPoolStatus
or_pool_enabled no_pool_status = pool_enabled
or_pool_enabled s = s

abbrev stored_pool : World → ExecutionPool → ExecutionPool
stored_pool w p = record p {
  id = w.pool_tables.next_pool_id;
  status = or_pool_enabled p.status;
  ctime = w.now;
  utime = w.now;
}

-- uniq_execution_pools_name
abbrev insert_pool : ExecutionPool → Action ℕ
insert_pool p w =
    let row = stored_pool w p in
    if any_where (pool_named p.name w) w.pool_tables.pools then (err duplicate_key, w) else (
      ok row.id,
      record w {
        pool_tables = record w.pool_tables {
          next_pool_id = suc w.pool_tables.next_pool_id;
          pools = w.pool_tables.pools ++ (row ∷ []);
        };
      },
    )

-- `Create` of a pool
unfoldable pub create_pool : ExecutionPool → Action ℕ
create_pool p = statement (insert_pool p)

abbrev change_pools : (World → ExecutionPool → Bool) → (ExecutionPool → ExecutionPool) → Action ℕ
change_pools p f w = (
  ok (count_where (p w) w.pool_tables.pools),
  put_pools (update_where (p w) f w.pool_tables.pools) w,
)

abbrev or_old_status : ExecutionPoolStatus → ExecutionPoolStatus → ExecutionPoolStatus
or_old_status no_pool_status old = old
or_old_status s old = s

abbrev pub reconfigured : ExecutionPool → ℕ → ExecutionPool → ExecutionPool
reconfigured p now old = record old {
  kind = p.kind;
  transport = p.transport;
  dispatch_mode = p.dispatch_mode;
  isolation_level = p.isolation_level;
  desc = p.desc;
  topic = p.topic;
  supported_handlers = p.supported_handlers;
  status = or_old_status p.status old.status;
  utime = now;
}

-- `Update` of a pool
unfoldable pub update_pool : ExecutionPool → Action ℕ
update_pool p = do
  now ← gets (λ w. w.now)
  statement (change_pools (pool_named p.name) (reconfigured p now))

-- `SetStatus` of a pool
unfoldable pub set_pool_status : String → ExecutionPoolStatus → Action ℕ
set_pool_status name s = do
  now ← gets (λ w. w.now)
  statement (change_pools (pool_named name) (λ p. record p { status = s; utime = now }))

-- `FindByName`
unfoldable pub find_pool_by_name : String → Action ExecutionPool
find_pool_by_name name = do
  row ← select (λ w. first_where (pool_named name w) w.pool_tables.pools)
  throw (found row)

abbrev is_mq : Transport → Bool
is_mq mq = true
is_mq _ = false

-- `FindMQByTopic`: a value out of JSON is compared as it stands
unfoldable pub find_mq_by_topic : String → Action ExecutionPool
find_mq_by_topic topic = do
  row ←
      select (λ w. first_where (λ p. is_mq p.transport && str_eq p.topic topic) w.pool_tables.pools)
  throw (found row)

-- `DeleteByName`
unfoldable pub delete_pool : String → Action ℕ
delete_pool name = statement (λ w. (
  ok (count_where (pool_named name w) w.pool_tables.pools),
  put_pools (keep_where (λ p. not (pool_named name w p)) w.pool_tables.pools) w,
))

abbrev create_or_update : ExecutionPool → Result ExecutionPool → Action (Unit {0})
create_or_update p (ok old) = update_pool p >> pure tt
create_or_update p (err record_not_found) = create_pool p >> pure tt
create_or_update p (err e) = fail e

-- `UpsertByName`, which `Upsert` of the repository calls
unfoldable pub upsert_pool : ExecutionPool → Action (Unit {0})
upsert_pool p = do r ← try (find_pool_by_name p.name); create_or_update p r

-- `Disable` of the repository
unfoldable pub disable_pool : String → Action (Unit {0})
disable_pool name = set_pool_status name pool_disabled >> pure tt

abbrev pub by_topic_unless_found : String → Result ExecutionPool → Action ExecutionPool
by_topic_unless_found name (ok p) = pure p
by_topic_unless_found name (err record_not_found) = find_mq_by_topic name
by_topic_unless_found name (err e) = fail e

-- `Find` of the repository
unfoldable pub find_pool : String → Action ExecutionPool
find_pool name = do r ← try (find_pool_by_name name); by_topic_unless_found name r

abbrev pub visible : World → ExecutionPoolBinding → Bool
visible w b = w.scope_of w.tenant b.tenant_id

abbrev pub of_pool : String → World → ExecutionPoolBinding → Bool
of_pool pool w b = same_text w b.pool_name pool

abbrev pub of_handler : String → String → World → ExecutionPoolBinding → Bool
of_handler pool handler w b = of_pool pool w b && same_text w b.handler_name handler

-- uniq_tenant_pool_handler
abbrev pub same_binding : World → ExecutionPoolBinding → ExecutionPoolBinding → Bool
same_binding w a b = b.tenant_id == a.tenant_id && of_handler a.pool_name a.handler_name w b

abbrev pub or_binding_enabled : ExecutionPoolBindingStatus → ExecutionPoolBindingStatus
or_binding_enabled no_binding_status = binding_enabled
or_binding_enabled s = s

-- the row of an INSERT for a tenant
abbrev pub stored_binding : World → ℕ → ExecutionPoolBinding → ExecutionPoolBinding
stored_binding w tenant b = record b {
  id = w.pool_tables.next_binding_id;
  tenant_id = tenant;
  status = or_binding_enabled b.status;
  ctime = w.now;
  utime = w.now;
}

abbrev pub append_binding : ExecutionPoolBinding → World → World
append_binding row w = record w {
  pool_tables = record w.pool_tables {
    next_binding_id = suc w.pool_tables.next_binding_id;
    bindings = w.pool_tables.bindings ++ (row ∷ []);
  };
}

unfoldable pub insert_binding : ℕ → ExecutionPoolBinding → Action (Unit {0})
insert_binding tenant b w =
    let row = stored_binding w tenant b in
    if any_where (same_binding w row) w.pool_tables.bindings
    then (err duplicate_key, w)
    else (ok tt, append_binding row w)

-- the rows of one INSERT
unfoldable pub insert_bindings : ℕ → List ExecutionPoolBinding → Action (Unit {0})
unfolding insert_binding
insert_bindings tenant [] = pure tt
insert_bindings tenant (b ∷ bs) = do insert_binding tenant b; insert_bindings tenant bs

abbrev pub is_none : List ExecutionPoolBinding → Bool
is_none [] = true
is_none (b ∷ bs) = false

-- `CreateBatch`: the tenant plugin fills in the tenant of the context
unfoldable pub create_batch : List ExecutionPoolBinding → Action (Unit {0})
create_batch bs =
    if is_none bs
    then pure tt
    else (do tenant ← gets (λ w. w.tenant); transaction (statement (insert_bindings tenant bs)))

-- the SELECT … FOR UPDATE of the pool, the count of other tenants, and the INSERT where there are
-- none; the context is one that ignores tenants
unfoldable pub create_unless_occupied : ℕ → String → List ExecutionPoolBinding → Action Bool
create_unless_occupied tenant pool bs = do
  _ ← find_pool_by_name pool
  count ← select (λ w.
      count_where (λ b. of_pool pool w b && not (b.tenant_id == tenant)) w.pool_tables.bindings)
  if ltb 0 count then pure true else (statement (insert_bindings tenant bs) >> pure false)

-- `CreateDedicatedBatch`: whether another tenant has the pool
unfoldable pub create_dedicated_batch : ℕ → String → List ExecutionPoolBinding → Action Bool
unfolding create_unless_occupied
create_dedicated_batch tenant pool bs =
    if is_none bs then pure false else transaction (create_unless_occupied tenant pool bs)

abbrev pub change_bindings :
    (World → ExecutionPoolBinding → Bool) → (ExecutionPoolBinding → ExecutionPoolBinding) → Action ℕ
change_bindings p f w = (
  ok (count_where (p w) w.pool_tables.bindings),
  put_bindings (update_where (p w) f w.pool_tables.bindings) w,
)

abbrev pub own : String → String → World → ExecutionPoolBinding → Bool
own pool handler w b = visible w b && of_handler pool handler w b

abbrev require_binding : ℕ → Action (Unit {0})
require_binding n = if n == 0 then fail record_not_found else pure tt

-- `SetStatus` of a binding
unfoldable pub set_binding_status : String → String → ExecutionPoolBindingStatus → Action (Unit {0})
set_binding_status pool handler s = do
  now ← gets (λ w. w.now)
  n ← statement (
      change_bindings (own pool (normalize_handler_name handler))
        (λ b. record b { status = s; utime = now }))
  require_binding n

-- `Unbind`, with `Delete`
unfoldable pub unbind_row : String → String → Action (Unit {0})
unbind_row pool handler = do
  let name = normalize_handler_name handler
  n ← statement (λ w. (
    ok (count_where (own pool name w) w.pool_tables.bindings),
    put_bindings (keep_where (λ b. not (own pool name w b)) w.pool_tables.bindings) w,
  ))
  require_binding n

-- `ListByPool` for every status
unfoldable pub list_by_pool : String → Action (List ExecutionPoolBinding)
list_by_pool pool = select λ w.
    order_by (λ a b. ltb b.utime a.utime)
      (keep_where (λ b. visible w b && of_pool pool w b) w.pool_tables.bindings)

-- CASE WHEN handler_name = ? THEN 0 ELSE 1 END
abbrev pub exact_rank : String → World → ExecutionPoolBinding → ℕ
exact_rank handler w b = if same_text w b.handler_name handler then 0 else 1

abbrev pub effective_row : String → String → World → Option ExecutionPoolBinding
effective_row pool handler w =
    if str_eq handler ""
    then first_where (own pool "" w) w.pool_tables.bindings
    else head? (
        sort_by (exact_rank handler w)
          (keep_where (λ b. own pool handler w b || own pool "" w b) w.pool_tables.bindings))

-- `FindEffective`
unfoldable pub find_effective : String → String → Action ExecutionPoolBinding
find_effective pool handler = do
  let name = normalize_handler_name (normalize_handler_name handler)
  row ← select (effective_row pool name)
  throw (found row)
