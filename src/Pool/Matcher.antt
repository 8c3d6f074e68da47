-- ===== src/Pool/Matcher.antt =====
-- internal/service/pool/matcher.go: who may use what, looked up in a list of bindings. A map is a
-- function from its keys.
use etask.Base.{String, Bool, false, List, [], ◌∷◌, Option, none, some, str_eq, if◌then◌else◌}
use etask.Domain.Pool.{
  ExecutionPoolBindingStatus, no_binding_status, ExecutionPoolBinding, is_binding_enabled,
  normalize_handler_name,
}

pub record BindingPermission : Type 0 where
  pub wildcard : ExecutionPoolBindingStatus
  pub handlers : String → Option ExecutionPoolBindingStatus

pub record BindingMatcher : Type 0 where
  pub pools : String → Option BindingPermission

-- m[k] = v
abbrev pub put {ℓ} : {A : Type ℓ} → String → A → (String → Option A) → String → Option A
put k v m key = if str_eq key k then some v else m key

-- the zero value of a missing entry, with its map made
abbrev pub permission_or_new : Option BindingPermission → BindingPermission
permission_or_new none = record { wildcard = no_binding_status; handlers = λ h. none }
permission_or_new (some p) = p

abbrev pub granted : String → ExecutionPoolBindingStatus → BindingPermission → BindingPermission
granted handler status p =
    if str_eq handler ""
    then record p { wildcard = status }
    else record p { handlers = put handler status p.handlers }

unfoldable pub add_binding : BindingMatcher → ExecutionPoolBinding → BindingMatcher
add_binding m b =
    let permission = permission_or_new (m.pools b.pool_name) in
    let after = granted (normalize_handler_name b.handler_name) b.status permission in
    record { pools = put b.pool_name after m.pools }

unfoldable pub add_bindings : BindingMatcher → List ExecutionPoolBinding → BindingMatcher
add_bindings m [] = m
add_bindings m (b ∷ bs) = add_bindings (add_binding m b) bs

abbrev pub no_matcher : BindingMatcher
no_matcher = record { pools = λ name. none }

-- `NewBindingMatcher`
unfoldable pub new_binding_matcher : List ExecutionPoolBinding → BindingMatcher
unfolding add_bindings
new_binding_matcher bs = add_bindings no_matcher bs

abbrev pub permits : BindingPermission → Option ExecutionPoolBindingStatus → Bool
permits p (some status) = is_binding_enabled status
permits p none = is_binding_enabled p.wildcard

abbrev pub permits_handler : String → Option BindingPermission → Bool
permits_handler handler none = false
permits_handler handler (some p) = permits p (p.handlers handler)

-- `Allow`: an exact binding goes before the binding of the whole pool
unfoldable pub allow : BindingMatcher → String → String → Bool
allow m pool handler = permits_handler (normalize_handler_name handler) (m.pools pool)
