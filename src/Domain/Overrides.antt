-- ===== src/Domain/Overrides.antt =====
-- internal/domain/task.go: the parameters of a task that a start may override.
use etask.Base.{String, Bool, List, Option}

pub data TaskParamInputMode : Type 0 where
  manual select : TaskParamInputMode
  other_input : String → TaskParamInputMode

pub record TaskParamOption : Type 0 where
  pub label : String
  pub value : String

pub record TaskParamSelectConfig : Type 0 where
  pub multiple : Bool
  pub options : List TaskParamOption

pub record TaskParamOverrideRule : Type 0 where
  pub param_key : String
  pub allowed_modes : List TaskParamInputMode
  pub default_mode : TaskParamInputMode
  pub select_config : Option TaskParamSelectConfig

pub record RunParamOverride : Type 0 where
  pub mode : TaskParamInputMode
  pub value : String
  pub values : List String
