-- ===== src/Pool/Binding.antt =====
-- internal/service/pool/binding.go and authorization.go: binding a tenant to handlers of a pool,
-- and whether a tenant may use one.
use etask.Base.{
  String, Bool, false, not, ◌&&◌, ◌||◌, List, [], ◌∷◌, map, Option, none, some, ltb, ◌==◌, str_eq,
  if◌then◌else◌, any_where, length, trim_space,
}
use etask.Errs.{Result, ok, err, record_not_found, invalid_parameter, malformed_json}
use etask.Domain.Pool.{
  ExecutionPool, ExecutionPoolBinding, ExecutionPoolBindingStatus, binding_enabled,
  binding_disabled, is_pool_enabled, is_binding_enabled, is_dedicated, normalize_handler_name,
}
use etask.Store.Pools.{HandlerMetadata}
use etask.Store.Action.{Action, pure, fail, try, gets, ◌>>=◌, ◌>>◌}
use etask.Pool.Tables.{
  find_pool, list_by_pool, create_batch, create_dedicated_batch, set_binding_status, unbind_row,
  find_effective,
}

pub record BindingManyRequest : Type 0 where
  pub pool_name : String
  pub handler_names : List String
  pub desc : String

abbrev pub require : Bool → Action (Unit {0})
require b = if b then pure tt else fail invalid_parameter

abbrev pub contains : String → List String → Bool
contains name names = any_where (str_eq name) names

-- lo.Uniq: the first of equal names stays
unfoldable pub uniq_from : List String → List String → List String
uniq_from seen [] = []
uniq_from seen (x ∷ xs) =
    let rest = uniq_from (x ∷ seen) xs in if contains x seen then rest else x ∷ rest

abbrev pub binding_names : List String → List String
binding_names names = uniq_from [] (map normalize_handler_name names)

-- `normalizeBindingHandlers`
unfoldable pub normalize_binding_handlers : List String → Action (List String)
unfolding uniq_from
normalize_binding_handlers names = do
  require (not (length names == 0))
  require (not (ltb 1 (length (binding_names names)) && contains "" (binding_names names)))
  pure (binding_names names)

abbrev pub parsed : Option (List HandlerMetadata) → Action (List HandlerMetadata)
parsed none = fail malformed_json
parsed (some hs) = pure hs

-- `parseHandlerMetadata`: no handlers are none that are declared
unfoldable pub parse_handler_metadata : ExecutionPool → Action (List HandlerMetadata)
parse_handler_metadata p =
    let raw = trim_space p.supported_handlers in
    if str_eq raw "" then pure [] else (gets (λ w. w.pool_tables.parse_handlers raw) >>= parsed)

abbrev pub named_handlers : List HandlerMetadata → List String
named_handlers [] = []
named_handlers (h ∷ hs) =
    let name = normalize_handler_name h.name in
    let rest = named_handlers hs in if str_eq name "" then rest else name ∷ rest

abbrev pub all_supported : List String → List String → Bool
all_supported supported names =
    not (any_where (λ name. not (str_eq name "") && not (contains name supported)) names)

-- `validatePoolHandlers`, with `supportedHandlerSet`: a pool that declares no handler takes any
unfoldable pub validate_pool_handlers : ExecutionPool → List String → Action (Unit {0})
validate_pool_handlers p names = do
  handlers ← parse_handler_metadata p
  let supported = named_handlers handlers
  require (length supported == 0 || all_supported supported names)

abbrev pub bound_names : List ExecutionPoolBinding → List String
bound_names bs = map (λ b. normalize_handler_name b.handler_name) bs

-- whether names may join those that a tenant has in a pool
abbrev pub may_join : List String → List String → Bool
may_join have names =
    length have == 0
    || (not (contains "" have) && not (any_where (λ n. str_eq n "" || contains n have) names))

-- `ensureBindingCreatable`
unfoldable pub ensure_binding_creatable : String → List String → Action (Unit {0})
ensure_binding_creatable pool names = do
  existing ← list_by_pool pool
  require (may_join (bound_names existing) names)

abbrev pub new_binding : String → String → String → ExecutionPoolBinding
new_binding pool desc name = record {
  id = 0;
  tenant_id = 0;
  pool_name = pool;
  handler_name = name;
  status = binding_enabled;
  desc = desc;
  ctime = 0;
  utime = 0;
}

-- the repository normalizes the names once more
abbrev pub renormalized : ExecutionPoolBinding → ExecutionPoolBinding
renormalized b = record b { handler_name = normalize_handler_name b.handler_name }

abbrev pub refuse_occupied : Bool → Action (Unit {0})
refuse_occupied occupied = if occupied then fail invalid_parameter else pure tt

unfoldable pub create_for : ExecutionPool → String → List ExecutionPoolBinding → Action (Unit {0})
create_for p pool bs =
    if is_dedicated p.isolation_level
    then (do
      tenant ← gets (λ w. w.tenant)
      occupied ← create_dedicated_batch tenant pool bs
      refuse_occupied occupied)
    else create_batch bs

-- `BindMany`
unfoldable pub bind_many : BindingManyRequest → Action (Unit {0})
bind_many req = do
  let pool_name = trim_space req.pool_name
  require (not (str_eq pool_name ""))
  names ← normalize_binding_handlers req.handler_names
  p ← find_pool pool_name
  validate_pool_handlers p names
  ensure_binding_creatable pool_name names
  create_for p pool_name
      (map (λ n. renormalized (new_binding pool_name (trim_space req.desc) n)) names)

-- `Bind`
unfoldable pub bind : String → String → String → Action (Unit {0})
bind pool handler desc =
    bind_many (record { pool_name = pool; handler_names = handler ∷ []; desc = desc })

-- `normalizeBindingKey`, and what is done with the key
abbrev with_binding_key : {A : Type 0} → String → (String → Action A) → Action A
with_binding_key pool next =
    let name = trim_space pool in require (not (str_eq name "")) >> next name

-- `Unbind`
unfoldable pub unbind : String → String → Action (Unit {0})
unbind pool handler =
    with_binding_key pool (λ name. unbind_row name (normalize_handler_name handler))

-- `setStatus`
unfoldable pub set_status : String → String → ExecutionPoolBindingStatus → Action (Unit {0})
set_status pool handler s =
    with_binding_key pool (λ name. set_binding_status name (normalize_handler_name handler) s)

-- `Enable`
unfoldable pub enable : String → String → Action (Unit {0})
enable pool handler = set_status pool handler binding_enabled

-- `Disable`
unfoldable pub disable : String → String → Action (Unit {0})
disable pool handler = set_status pool handler binding_disabled

abbrev pub bound_enabled : Result ExecutionPoolBinding → Action Bool
bound_enabled (ok b) = pure (is_binding_enabled b.status)
bound_enabled (err record_not_found) = pure false
bound_enabled (err e) = fail e

abbrev pub usable : String → String → Result ExecutionPool → Action Bool
usable pool handler (ok p) =
    if is_pool_enabled p.status
    then (try (find_effective pool handler) >>= bound_enabled)
    else pure false
usable pool handler (err record_not_found) = pure false
usable pool handler (err e) = fail e

-- `IsAllowed`
unfoldable pub is_allowed : String → String → Action Bool
is_allowed pool handler =
    with_binding_key pool
      λ name. do r ← try (find_pool name); usable name (normalize_handler_name handler) r
