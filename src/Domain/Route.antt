-- ===== src/Domain/Route.antt =====
-- internal/domain/execution_route.go and the modes of internal/domain/task.go: the route that an
-- execution keeps from its creation on.
use Prim.Native.String.{String}
use etask.Base.{◌≡◌, ◌⊎◌, ◌≢◌, Bool, true, false, not, ◌&&◌, arith, str_eq, if◌then◌else◌}
use etask.Errs.{Result, ok, err, invalid_route}

-- `other_mode` is any string but PUSH and PULL.
pub data ExecMode : Type 0 where
  push pull other_mode : ExecMode

pub data Transport : Type 0 where
  local http grpc mq other_transport : Transport

pub record ExecutionRoute : Type 0 where
  pub transport : Transport
  pub dispatch_mode : ExecMode
  pub pool_name : String
  pub target_node_id : String
  pub topic : String

abbrev pub is_pull : ExecMode → Bool
is_pull pull = true
is_pull _ = false

abbrev pub is_push : ExecMode → Bool
is_push push = true
is_push _ = false

abbrev pub is_empty : String → Bool
is_empty s = str_eq s ""

check_route : Transport → ExecutionRoute → Result (Unit {0})
check_route local r = if not (is_push r.dispatch_mode) then err invalid_route else ok tt
check_route http r = if not (is_push r.dispatch_mode) then err invalid_route else ok tt
check_route grpc r =
    if is_empty r.pool_name
    then err invalid_route
    else if not (is_push r.dispatch_mode) && not (is_pull r.dispatch_mode)
    then err invalid_route
    else if is_push r.dispatch_mode && is_empty r.target_node_id
    then err invalid_route
    else ok tt
check_route mq r =
    if is_empty r.pool_name
    then err invalid_route
    else if is_empty r.topic
    then err invalid_route
    else if not (is_push r.dispatch_mode)
    then err invalid_route
    else ok tt
check_route other_transport r = err invalid_route

unfoldable pub validate_route : ExecutionRoute → Result (Unit {0})
unfolding check_route
validate_route r = check_route r.transport r

-- A route that passes can be dispatched: it names a known transport; PULL is for gRPC alone; gRPC
-- and MQ have their pool, MQ its topic, and a gRPC push its node.
pub record IsDispatchable (r : ExecutionRoute) : Type 0 where
  pub known : r.transport ≢ other_transport
  pub mode : (r.dispatch_mode ≡ push) ⊎ ((r.dispatch_mode ≡ pull) × (r.transport ≡ grpc))
  pub grpc_pool : r.transport ≡ grpc → is_empty r.pool_name ≡ false
  pub mq_pool : r.transport ≡ mq → is_empty r.pool_name ≡ false
  pub mq_topic : r.transport ≡ mq → is_empty r.topic ≡ false
  pub push_target : r.transport ≡ grpc → r.dispatch_mode ≡ push → is_empty r.target_node_id ≡ false

-- A route that passes `Validate` can be dispatched: it is for a known transport and a mode that this
-- transport has, and names the pool, the topic and the node that they need.
pub validate_route_sound : (r : ExecutionRoute) → validate_route r ≡ ok tt → IsDispatchable r
unfolding validate_route
validate_route_sound r h = ground arith

-- Every route that can be dispatched passes `Validate`.
pub validate_route_complete : (r : ExecutionRoute) → IsDispatchable r → validate_route r ≡ ok tt
unfolding validate_route
validate_route_complete r h = ground arith
