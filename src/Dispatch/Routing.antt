-- ===== src/Dispatch/Routing.antt =====
-- internal/service/dispatcher/routing.go: the route of one dispatch.
pub mod Sound
use etask.Base.{String, ◌≡◌, Bool, true, false, List, Option, none, some, if◌then◌else◌}
use etask.Errs.{Err, Result, ok, err, invalid_route}
use etask.Domain.Route.{
  ExecMode, push, pull, Transport, local, http, grpc, mq, ExecutionRoute, validate_route, is_push,
}
use etask.Domain.Execution.{GrpcConfig}
use etask.Domain.Pool.{ExecutionPool}
use etask.Domain.Task.{Task}

-- The other services that a dispatch asks: each answers or fails.
pub record Services : Type 0 where
  pub find_pool : String → Result ExecutionPool
  pub pick : Task → Result String
  pub authorize : Task → Result (Unit {0})
  pub resolve : Task → Result (Unit {0})
  pub assemble : Task → Result Task
  pub slot : Result (Unit {0})
  -- reflect.DeepEqual of the programs of two snapshots of a task
  pub same_program : Task → Task → Bool

abbrev pub Route : Type 0
Route = Task × ExecutionRoute

abbrev pub in_mode : ExecMode → Task → Task
in_mode mode t = record t { exec_mode = mode }

abbrev pub plain_route : Transport → ExecMode → ExecutionRoute
plain_route transport mode = record {
  transport = transport;
  dispatch_mode = mode;
  pool_name = "";
  target_node_id = "";
  topic = "";
}

abbrev pub checked : Task → ExecutionRoute → Result (Unit {0}) → Result Route
checked t r (ok _) = ok (t, r)
checked t r (err e) = err e

unfoldable pub mq_route : Task → ExecutionPool → Result Route
mq_route t pool =
    let r = record (plain_route mq push) { pool_name = pool.name; topic = pool.topic } in
    checked (in_mode push t) r (validate_route r)

abbrev pub grpc_to : Task → ExecutionPool → Result String → Result Route
grpc_to t pool (err e) = err e
grpc_to t pool (ok node) =
    let r = record (plain_route grpc pool.dispatch_mode) {
      pool_name = pool.name;
      target_node_id = node;
    } in
    checked t r (validate_route r)

-- `grpcRoute`: only a push needs its node in advance.
unfoldable pub grpc_route : Services → Task → ExecutionPool → Result Route
grpc_route s t pool =
    let t' = in_mode pool.dispatch_mode t in
    grpc_to t' pool (if is_push pool.dispatch_mode then s.pick t' else ok "")

abbrev pub pool_route : Services → Task → Transport → ExecutionPool → Result Route
pool_route s t mq pool = mq_route t pool
pool_route s t grpc pool = grpc_route s t pool
pool_route s t _ pool = err invalid_route

abbrev pub by_pool : Services → Task → Result ExecutionPool → Result Route
by_pool s t (err e) = err e
by_pool s t (ok pool) = pool_route s t pool.transport pool

abbrev pub by_config : Services → Task → Option GrpcConfig → Result Route
by_config s t none =
    ok (in_mode push t, plain_route (if t.has_http_config then http else local) push)
by_config s t (some c) = by_pool s t (s.find_pool c.service_name)

-- `Plan`
unfoldable pub plan : Services → Task → Result Route
plan s t = by_config s t t.grpc_config
