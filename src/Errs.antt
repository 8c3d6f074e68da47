-- ===== src/Errs.antt =====
-- internal/errs/errors.go and the sentinel errors of the packages above it: one constructor for
-- each error that the code returns or tests with `errors.Is`. The text that wraps an error is left
-- out.
pub data Err : Type 0 where
  db_failure record_not_found execution_not_found codebook_name_conflict codebook_version_conflict
        invalid_execution_status :
      Err
  set_running_failed update_progress_failed max_retries_exceeded : Err
  task_preempt_failed task_release_failed task_update_next_time_failed : Err
  task_update_status_failed task_update_schedule_params_failed : Err
  task_is_running task_not_stopped override_consumed task_name_duplicate task_not_found
        invalid_cron_expr :
      Err
  cancellation_terminal cancellation_rejected invalid_command rejected : Err
  request_mismatch missing_request_id missing_tenant : Err
  invalid_route pool_not_found pool_not_allowed pick_failed program_source_unavailable : Err
  invalid_parameter invalid_task_id nil_dereference invalid_variable duplicate_key malformed_json :
      Err

-- `(value, error)` with a nil error, or an error.
pub data Result {ℓ} (A : Type ℓ) : Type ℓ where
  ok : A → Result A
  err : Err → Result A
