-- ===== src/Store/Pools.antt =====
-- The tables of execution pools and of their bindings.
use etask.Base.{ℕ, String, Bool, List, Option}
use etask.Domain.Pool.{ExecutionPool, ExecutionPoolBinding}

-- internal/service/pool/handler_metadata.go
pub record ParameterMetadata : Type 0 where
  pub key : String
  pub role : String
  pub runtime_overridable : Bool

pub record HandlerMetadata : Type 0 where
  pub name : String
  pub parameters : List ParameterMetadata

pub record PoolTables : Type 0 where
  -- json.Unmarshal of a list of handlers
  pub parse_handlers : String → Option (List HandlerMetadata)
  pub next_pool_id : ℕ
  pub pools : List ExecutionPool
  pub next_binding_id : ℕ
  pub bindings : List ExecutionPoolBinding
