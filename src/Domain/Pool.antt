-- ===== src/Domain/Pool.antt =====
-- internal/domain/execution_pool.go: execution pools and what a tenant may use of them. The
-- columns of kinds, isolation and statuses are enumerations; a status may be left empty by a
-- caller.
use etask.Base.{ℕ, String, Bool, true, false, str_eq, if◌then◌else◌, trim_space}
use etask.Domain.Route.{ExecMode, Transport}

pub data ExecutionPoolKind : Type 0 where
  executor agent : ExecutionPoolKind

pub data ExecutionPoolIsolation : Type 0 where
  shared dedicated : ExecutionPoolIsolation

pub data ExecutionPoolStatus : Type 0 where
  pool_enabled pool_disabled no_pool_status : ExecutionPoolStatus

pub data ExecutionPoolBindingStatus : Type 0 where
  binding_enabled binding_disabled no_binding_status : ExecutionPoolBindingStatus

-- Of Metadata the keys that the code reads, "" where one is missing.
pub record ExecutionPool : Type 0 where
  pub id : ℕ
  pub name : String
  pub kind : ExecutionPoolKind
  pub transport : Transport
  pub dispatch_mode : ExecMode
  pub isolation_level : ExecutionPoolIsolation
  pub desc : String
  pub status : ExecutionPoolStatus
  pub topic : String
  pub supported_handlers : String
  pub ctime : ℕ
  pub utime : ℕ

pub record ExecutionPoolBinding : Type 0 where
  pub id : ℕ
  pub tenant_id : ℕ
  pub pool_name : String
  pub handler_name : String
  pub status : ExecutionPoolBindingStatus
  pub desc : String
  pub ctime : ℕ
  pub utime : ℕ

abbrev pub is_pool_enabled : ExecutionPoolStatus → Bool
is_pool_enabled pool_enabled = true
is_pool_enabled _ = false

abbrev pub is_binding_enabled : ExecutionPoolBindingStatus → Bool
is_binding_enabled binding_enabled = true
is_binding_enabled _ = false

abbrev pub is_dedicated : ExecutionPoolIsolation → Bool
is_dedicated dedicated = true
is_dedicated shared = false

-- `NormalizeExecutionPoolHandlerName`: "*" and "" are the whole pool
unfoldable pub normalize_handler_name : String → String
normalize_handler_name handler =
    let name = trim_space handler in if str_eq name "*" then "" else name

-- `IsWildcard`
unfoldable pub is_wildcard : ExecutionPoolBinding → Bool
is_wildcard b = str_eq (normalize_handler_name b.handler_name) ""
