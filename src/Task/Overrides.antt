-- ===== src/Task/Overrides.antt =====
-- internal/service/task/param_override.go: which parameters a start may override, and how.
use Prim.Native.Char.{code}
use etask.Base.{
  String, Bool, true, false, not, ◌&&◌, ◌||◌, List, [], ◌∷◌, map, Option, none, some, ltb, ◌==◌,
  str_eq, if◌then◌else◌, any_where, length, trim_space, byte_count,
}
use etask.Errs.{Result, ok, err, invalid_parameter}
use etask.Domain.Codebook.Checks.{◌>>=◌, ◌>>◌, require, is_empty}
use etask.Domain.Execution.{Params}
use etask.Domain.Overrides.{
  TaskParamInputMode, manual, select, other_input, TaskParamOption, TaskParamSelectConfig,
  TaskParamOverrideRule, RunParamOverride,
}

abbrev pub same_mode : TaskParamInputMode → TaskParamInputMode → Bool
same_mode manual manual = true
same_mode select select = true
same_mode (other_input a) (other_input b) = str_eq a b
same_mode _ _ = false

-- `containsMode`
abbrev pub contains_mode : List TaskParamInputMode → TaskParamInputMode → Bool
contains_mode modes target = any_where (λ mode. same_mode mode target) modes

abbrev is_known : TaskParamInputMode → Bool
is_known manual = true
is_known select = true
is_known (other_input s) = false

-- each mode once, and each a known one
abbrev check_modes : List TaskParamInputMode → List TaskParamInputMode → Result (Unit {0})
check_modes seen [] = ok tt
check_modes seen (mode ∷ modes) =
    require (is_known mode)
    >> (require (not (contains_mode seen mode)) >> check_modes (mode ∷ seen) modes)

abbrev has_comma : String → Bool
has_comma String.[] = false
has_comma (String.◌∷◌ c s) = code c == 44 || has_comma s

abbrev pub option_ok : TaskParamOption → Bool
option_ok o = not (
    is_empty (trim_space o.label)
    || is_empty (trim_space o.value)
    || ltb 128 (byte_count o.label)
    || ltb 1024 (byte_count o.value)
    || has_comma o.value)

abbrev pub contains_text : String → List String → Bool
contains_text s ts = any_where (str_eq s) ts

abbrev check_options : List String → List TaskParamOption → Result (Unit {0})
check_options seen [] = ok tt
check_options seen (o ∷ os) =
    require (option_ok o)
    >> (require (not (contains_text o.value seen)) >> check_options (o.value ∷ seen) os)

abbrev check_select : Option TaskParamSelectConfig → Result (Unit {0})
check_select none = err invalid_parameter
check_select (some config) = do
  require (not (length config.options == 0 || ltb 500 (length config.options)))
  check_options [] config.options

abbrev is_missing : Option TaskParamSelectConfig → Bool
is_missing none = true
is_missing (some c) = false

-- `validateOverrideRule`
unfoldable pub validate_override_rule : TaskParamOverrideRule → Result (Unit {0})
validate_override_rule rule = do
  let modes = rule.allowed_modes
  require (not (length modes == 0 || ltb 2 (length modes)))
  check_modes [] modes
  require (contains_mode modes rule.default_mode)
  require (not (contains_mode modes select && not (same_mode rule.default_mode select)))
  if contains_mode modes select
      then check_select rule.select_config
      else require (is_missing rule.select_config)

unfoldable pub validate_rules :
    List String → List String → List TaskParamOverrideRule → Result (Unit {0})
unfolding validate_override_rule
validate_rules valid seen [] = ok tt
validate_rules valid seen (rule ∷ rules) = do
  let key = trim_space rule.param_key
  require (not (is_empty key || ltb 128 (byte_count key)))
  require (contains_text key valid)
  require (not (contains_text key seen))
  validate_override_rule rule
  validate_rules valid (key ∷ seen) rules

-- `validateParamOverrideRules`: the keys that the handler of the task declares, where it has one
unfoldable pub validate_param_override_rules :
    Option (Result (List String)) → List TaskParamOverrideRule → Result (Unit {0})
unfolding validate_rules
validate_param_override_rules keys [] = ok tt
validate_param_override_rules none (rule ∷ rules) = err invalid_parameter
validate_param_override_rules (some keys) (rule ∷ rules) = do
  require (not (ltb 100 (length (rule ∷ rules))))
  valid ← keys
  validate_rules valid [] (rule ∷ rules)

-- byKey: the last rule of a key
abbrev pub rule_for : String → List TaskParamOverrideRule → Option TaskParamOverrideRule
rule_for key [] = none
rule_for key (rule ∷ rules) = elim (rule_for key rules) [
  | some r ↦ some r
  | none ↦ if str_eq rule.param_key key then some rule else none
]

abbrev pub option_values : List TaskParamOption → List String
option_values os = map (λ (o : TaskParamOption). o.value) os

abbrev pub check_selected : List String → List String → List String → Result (Unit {0})
check_selected options seen [] = ok tt
check_selected options seen (v ∷ vs) =
    require (contains_text v options)
    >> (require (not (contains_text v seen)) >> check_selected options (v ∷ seen) vs)

-- `validateSelectedValues`: the values as they are, where they pass
unfoldable pub validate_selected_values : TaskParamSelectConfig → List String → Result (List String)
validate_selected_values config values = do
  require (not (length values == 0 || (not config.multiple && not (length values == 1))))
  check_selected (option_values config.options) [] values
  ok values

abbrev append_text : String → String → String
append_text String.[] t = t
append_text (String.◌∷◌ c s) t = String.◌∷◌ c (append_text s t)

-- strings.Join with ","
abbrev pub join : List String → String
join [] = ""
join (v ∷ []) = v
join (v ∷ u ∷ vs) = append_text v (append_text "," (join (u ∷ vs)))

unfoldable pub serialize_select : Option TaskParamSelectConfig → RunParamOverride → Result String
serialize_select none o = err invalid_parameter
serialize_select (some config) o = do
  require (is_empty o.value)
  values ← validate_selected_values config o.values
  ok (join values)

abbrev pub serialize_mode :
    TaskParamOverrideRule → TaskParamInputMode → RunParamOverride → Result String
serialize_mode rule manual o = do
  require (not (ltb 1024 (byte_count o.value) || not (length o.values == 0)))
  ok o.value
serialize_mode rule select o = serialize_select rule.select_config o
serialize_mode rule (other_input s) o = err invalid_parameter

unfoldable pub serialize_by : Option TaskParamOverrideRule → RunParamOverride → Result String
unfolding serialize_select
serialize_by none o = err invalid_parameter
serialize_by (some rule) o = do
  require (contains_mode rule.allowed_modes o.mode)
  serialize_mode rule o.mode o

-- `validateAndSerializeOverrides`: the map is run through in any order; the first override that
-- fails ends it
unfoldable pub validate_and_serialize_overrides :
    List TaskParamOverrideRule → List (String × RunParamOverride) → Result Params
unfolding serialize_by
validate_and_serialize_overrides rules [] = ok []
validate_and_serialize_overrides rules ((key, o) ∷ os) = do
  value ← serialize_by (rule_for key rules) o
  rest ← validate_and_serialize_overrides rules os
  ok ((key, value) ∷ rest)
