-- ===== src/Domain/Notification.antt =====
-- internal/domain/task_notification.go and task_validation.go: who is told of the end of an
-- execution, and the checks of a task that ask no other service.
pub mod Rules
use etask.Base.{
  ℕ, String, Bool, true, false, not, ◌&&◌, ◌||◌, List, [], ◌∷◌, Option, none, some, ℤ, pos, negsuc,
  leb_ℤ, ltb_ℤ, ◌==◌, str_eq, if◌then◌else◌, any_where, first_where, length, trim_space,
}
use etask.Errs.{Result, ok, err, invalid_variable}
use etask.Domain.Status.{ExecutionStatus, is_terminal_status, same_status, status_in}
use etask.Domain.Codebook.Checks.{◌>>=◌, ◌>>◌, require, is_empty}

pub data NotificationRecipientType : Type 0 where
  recipient_user recipient_team recipient_department recipient_on_call : NotificationRecipientType
  other_recipient : String → NotificationRecipientType

pub data NotificationChannel : Type 0 where
  lark_card email in_app wechat : NotificationChannel
  other_channel : String → NotificationChannel

pub record NotificationRecipient : Type 0 where
  pub recipient_type : NotificationRecipientType
  pub target_ids : List ℤ

pub record ExecutionNotificationRule : Type 0 where
  pub trigger_status : ExecutionStatus
  pub recipients : List NotificationRecipient
  pub channels : List NotificationChannel
  pub template_set_id : ℤ
  pub enabled : Bool

-- `NotificationRecipientType.IsValid`
abbrev pub is_valid_recipient : NotificationRecipientType → Bool
is_valid_recipient (other_recipient s) = false
is_valid_recipient _ = true

-- `NotificationChannel.IsValid`
abbrev pub is_valid_channel : NotificationChannel → Bool
is_valid_channel (other_channel s) = false
is_valid_channel _ = true

abbrev pub is_lark_card : NotificationChannel → Bool
is_lark_card lark_card = true
is_lark_card _ = false

abbrev pub same_channel : NotificationChannel → NotificationChannel → Bool
same_channel lark_card lark_card = true
same_channel email email = true
same_channel in_app in_app = true
same_channel wechat wechat = true
same_channel (other_channel s) (other_channel t) = str_eq s t
same_channel _ _ = false

-- `NotificationRecipient.Validate`
unfoldable pub validate_recipient : NotificationRecipient → Result (Unit {0})
validate_recipient r = do
  require (is_valid_recipient r.recipient_type)
  require (not (length r.target_ids == 0))
  require (not (any_where (λ id. leb_ℤ id (pos 0)) r.target_ids))

unfoldable pub validate_recipients : List NotificationRecipient → Result (Unit {0})
validate_recipients [] = ok tt
validate_recipients (r ∷ rs) = validate_recipient r >> validate_recipients rs

unfoldable pub validate_channels :
    List NotificationChannel → List NotificationChannel → Result (Unit {0})
validate_channels seen [] = ok tt
validate_channels seen (c ∷ cs) = do
  require (is_valid_channel c)
  require (not (any_where (same_channel c) seen))
  validate_channels (c ∷ seen) cs

abbrev is_zero : ℤ → Bool
is_zero z = leb_ℤ z (pos 0) && leb_ℤ (pos 0) z

-- `ExecutionNotificationRule.Validate`
unfoldable pub validate_rule : ExecutionNotificationRule → Result (Unit {0})
validate_rule r = do
  require (is_terminal_status r.trigger_status)
  require (not (ltb_ℤ r.template_set_id (pos 0)))
  require (not (length r.recipients == 0))
  validate_recipients r.recipients
  require (not (length r.channels == 0))
  validate_channels [] r.channels
  require (not (is_zero r.template_set_id && any_where (λ c. not (is_lark_card c)) r.channels))

unfoldable pub validate_rules :
    List ExecutionStatus → List ExecutionNotificationRule → Result (Unit {0})
validate_rules seen [] = ok tt
validate_rules seen (r ∷ rs) = do
  validate_rule r
  require (not (status_in seen r.trigger_status))
  validate_rules (r.trigger_status ∷ seen) rs

-- `ValidateNotificationRules`
unfoldable pub validate_notification_rules : List ExecutionNotificationRule → Result (Unit {0})
unfolding validate_rules
validate_notification_rules rules = validate_rules [] rules

abbrev pub is_hit : ExecutionStatus → ExecutionNotificationRule → Bool
is_hit status r = r.enabled && same_status r.trigger_status status

-- `EnabledNotificationRule`
unfoldable pub enabled_notification_rule :
    List ExecutionNotificationRule → ExecutionStatus → Option ExecutionNotificationRule
enabled_notification_rule rules status = first_where (is_hit status) rules

-- variable.Item, internal/pkg/variable
pub record Item : Type 0 where
  pub key : String
  pub value : String
  pub secret : Bool

abbrev check_variables : List String → List Item → Result (Unit {0})
check_variables seen [] = ok tt
check_variables seen (i ∷ is) =
    let key = trim_space i.key in
    if is_empty key || any_where (str_eq key) seen
    then err invalid_variable
    else check_variables (key ∷ seen) is

-- `ValidateVariableItems`
unfoldable pub validate_variable_items : List Item → Result (Unit {0})
validate_variable_items items = check_variables [] items

-- `Task.Validate`: the variables where the task has a gRPC configuration, and the answer of its
-- program
unfoldable pub validate_task :
    Option (List Item) → Result (Unit {0}) → List ExecutionNotificationRule → Result (Unit {0})
unfolding validate_variable_items
validate_task none program rules = program >> validate_notification_rules rules
validate_task (some items) program rules =
    validate_variable_items items >> (program >> validate_notification_rules rules)
