-- ===== src/Examples/Starts.antt =====
-- Overrides of parameters and notification rules at concrete inputs.
use etask.Base.{String, ◌↔◌, Member, pos, ◌≡◌, refl, true, List, [], ◌∷◌, none, some, byte_count}
use etask.Errs.{ok}
use etask.Domain.Status.{success, failed, is_terminal_status, same_status, status_in}
use etask.Domain.Execution.{Params}
use etask.Domain.Notification.{
  ExecutionNotificationRule, recipient_user, recipient_team, lark_card, email,
  enabled_notification_rule, validate_notification_rules, validate_rules, validate_rule,
  validate_recipients, validate_recipient, validate_channels,
}
use etask.Domain.Notification.Rules.{enabled_notification_rule-exact}
use etask.Domain.Overrides.{
  manual, select, TaskParamSelectConfig, TaskParamOverrideRule, RunParamOverride,
}
use etask.Task.Overrides.{
  validate_and_serialize_overrides, serialize_by, serialize_select, validate_selected_values,
}
use etask.Task.Accepted.{AllAccepted, validate_and_serialize_overrides-exact}

abbrev regions : TaskParamSelectConfig
regions = record {
  multiple = true;
  options =
      record { label = "East"; value = "east" } ∷ record { label = "West"; value = "west" } ∷ [];
}

abbrev two_rules : List TaskParamOverrideRule
two_rules =
    record {
      param_key = "limit";
      allowed_modes = manual ∷ [];
      default_mode = manual;
      select_config = none;
    }
    ∷ record {
      param_key = "region";
      allowed_modes = select ∷ [];
      default_mode = select;
      select_config = some regions;
    }
    ∷ []

abbrev two_overrides : List (String × RunParamOverride)
two_overrides =
    ("region", record { mode = select; value = ""; values = "west" ∷ "east" ∷ [] })
    ∷ ("limit", record { mode = manual; value = "20"; values = [] })
    ∷ []

abbrev two_entries : Params
two_entries = ("region", "west,east") ∷ ("limit", "20") ∷ []

overrides_taken : validate_and_serialize_overrides two_rules two_overrides ≡ ok two_entries
unfolding validate_and_serialize_overrides serialize_by serialize_select validate_selected_values
    byte_count
overrides_taken = refl

validate_and_serialize_overrides-exact_example : AllAccepted two_rules two_overrides two_entries
validate_and_serialize_overrides-exact_example =
    (validate_and_serialize_overrides-exact two_rules two_overrides two_entries).0 overrides_taken

abbrev failure_rule : ExecutionNotificationRule
failure_rule = record {
  trigger_status = failed;
  recipients = record { recipient_type = recipient_user; target_ids = pos 7 ∷ [] } ∷ [];
  channels = lark_card ∷ [];
  template_set_id = pos 0;
  enabled = true;
}

abbrev success_rule : ExecutionNotificationRule
success_rule = record {
  trigger_status = success;
  recipients = record { recipient_type = recipient_team; target_ids = pos 2 ∷ pos 3 ∷ [] } ∷ [];
  channels = email ∷ lark_card ∷ [];
  template_set_id = pos 4;
  enabled = true;
}

abbrev both_rules : List ExecutionNotificationRule
both_rules = success_rule ∷ failure_rule ∷ []

both_rules_pass : validate_notification_rules both_rules ≡ ok tt
unfolding validate_notification_rules validate_rules validate_rule validate_recipients
    validate_recipient validate_channels is_terminal_status status_in same_status
both_rules_pass = refl

enabled_notification_rule-exact_example :
    (enabled_notification_rule both_rules failed ≡ some failure_rule)
    ↔ (Member failure_rule both_rules × (true ≡ true) × (failed ≡ failed))
enabled_notification_rule-exact_example =
    enabled_notification_rule-exact both_rules failed failure_rule both_rules_pass
