-- ===== src/Dispatch/Routing/Sound.antt =====
-- The planner gives out only routes that can be dispatched.
use etask.Base.{String, ◌≡◌, refl, sym, Bool, true, false, Option, none, some, arith, if◌then◌else◌}
use etask.Errs.{Result, ok, err}
use etask.Domain.Route.{
  is_push, push, Transport, local, http, grpc, mq, other_transport, ExecutionRoute, validate_route,
  IsDispatchable, validate_route_sound,
}
use etask.Domain.Execution.{GrpcConfig}
use etask.Domain.Pool.{ExecutionPool}
use etask.Domain.Task.{Task}
use etask.Dispatch.Routing.{
  Services, Route, in_mode, plain_route, checked, mq_route, grpc_to, grpc_route, pool_route,
  by_pool, by_config, plan,
}

-- A planned route that has passed its check, with the task set to its mode.
record IsPlanned (t : Task) (p : Route) : Type 0 where
  pub valid : validate_route p.1 ≡ ok tt
  pub mode_set : p.0 ≡ in_mode p.1.dispatch_mode t

ok-route : (a b : Route) → ok a ≡ ok b → a ≡ b
ok-route a b h = cc

checked-IsPlanned :
    (t : Task) (r : ExecutionRoute) (v : Result (Unit {0})) (p : Route)
    → v ≡ validate_route r
    → checked (in_mode r.dispatch_mode t) r v ≡ ok p
    → IsPlanned t p
checked-IsPlanned t r (ok _) p e h =
    rw (sym (ok-route (in_mode r.dispatch_mode t, r) p h))
      (record { valid = sym e; mode_set = refl })
checked-IsPlanned t r (err x) p e h = absurd (ground arith)

grpc_to-IsPlanned :
    (t : Task) (pool : ExecutionPool) (node : Result String) (p : Route)
    → grpc_to (in_mode pool.dispatch_mode t) pool node ≡ ok p
    → IsPlanned t p
grpc_to-IsPlanned t pool (ok node) p h =
    let r : ExecutionRoute = record (plain_route grpc pool.dispatch_mode) {
      pool_name = pool.name;
      target_node_id = node;
    } in
    checked-IsPlanned t r (validate_route r) p refl h
grpc_to-IsPlanned t pool (err x) p h = absurd (ground arith)

pool_route-IsPlanned :
    (s : Services) (t : Task) (transport : Transport) (pool : ExecutionPool) (p : Route)
    → pool_route s t transport pool ≡ ok p
    → IsPlanned t p
unfolding mq_route grpc_route
pool_route-IsPlanned s t mq pool p h =
    let r : ExecutionRoute = record (plain_route mq push) {
      pool_name = pool.name;
      topic = pool.topic;
    } in
    checked-IsPlanned t r (validate_route r) p refl h
pool_route-IsPlanned s t grpc pool p h =
    grpc_to-IsPlanned t pool
      (if is_push pool.dispatch_mode then s.pick (in_mode pool.dispatch_mode t) else ok "") p h
pool_route-IsPlanned s t local pool p h = absurd (ground arith)
pool_route-IsPlanned s t http pool p h = absurd (ground arith)
pool_route-IsPlanned s t other_transport pool p h = absurd (ground arith)

by_pool-IsPlanned :
    (s : Services) (t : Task) (pool : Result ExecutionPool) (p : Route)
    → by_pool s t pool ≡ ok p
    → IsPlanned t p
by_pool-IsPlanned s t (ok pool) p h = pool_route-IsPlanned s t pool.transport pool p h
by_pool-IsPlanned s t (err x) p h = absurd (ground arith)

plain-IsPlanned :
    (t : Task) (b : Bool) (p : Route)
    → ok (in_mode push t, plain_route (if b then http else local) push) ≡ ok p
    → IsPlanned t p
unfolding validate_route
plain-IsPlanned t true p h =
    rw (sym (ok-route (in_mode push t, plain_route http push) p h))
      (record { valid = refl; mode_set = refl })
plain-IsPlanned t false p h =
    rw (sym (ok-route (in_mode push t, plain_route local push) p h))
      (record { valid = refl; mode_set = refl })

by_config-IsPlanned :
    (s : Services) (t : Task) (c : Option GrpcConfig) (p : Route)
    → by_config s t c ≡ ok p
    → IsPlanned t p
by_config-IsPlanned s t none p h = plain-IsPlanned t t.has_http_config p h
by_config-IsPlanned s t (some c) p h = by_pool-IsPlanned s t (s.find_pool c.service_name) p h

-- Whatever pools and nodes there are, a route that the planner gives out can be dispatched, and the
-- task goes on unchanged but for the mode of that route.
pub plan_sound :
    (s : Services) (t t' : Task) (r : ExecutionRoute)
    → plan s t ≡ ok (t', r)
    → IsDispatchable r × (t' ≡ in_mode r.dispatch_mode t)
unfolding plan
plan_sound s t t' r h =
    let p = by_config-IsPlanned s t t.grpc_config (t', r) h in
    (validate_route_sound r p.valid, p.mode_set)
