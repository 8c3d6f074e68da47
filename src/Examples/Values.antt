-- ===== src/Examples/Values.antt =====
-- Examples of the theorems on values.
use etask.Base.{
  ◌%◌, ◌-◌, ◌+◌, ltb, ℕ, mul_64, wrap_32, ◌+ℤ◌, ◌*◌, ◌^◌, ◌≡◌, ◌≤◌, ◌↔◌, ◌⊎◌, refl, inl, [], Bool,
  true, false, pos, ltb_ℤ, leb_ℤ, arith, if◌then◌else◌, ◌≢◌, ◌==◌,
}
use etask.Errs.{ok}
use etask.Domain.Status.{
  prepare, running, proto_running, status_from_proto, status_to_proto, unknown, waiting_pull,
  non_terminal_statuses, status_in, is_valid_status, is_terminal_status, status-proto-roundtrip,
  non_terminal_statuses-exact,
}
use etask.Domain.Route.{
  validate_route, IsDispatchable, validate_route_sound, validate_route_complete, push,
}
use etask.Domain.Execution.{
  get_param, grpc_params, merge_task_schedule_params, grpc_params_of, or_empty,
}
use etask.Domain.Params.{or_else, params-precedence}
use etask.Retry.{ExponentialBackoff, next_with_retries, interval_for, power_of_two}
use etask.Retry.Bounds.{next_with_retries-bounds, next_with_retries-limit, next_with_retries-exact}
use etask.Calendar.{day_of, end_of_day, skip_holidays, next_workday}
use etask.Calendar.First.{IsSchedule, IsFirstFree, next_workday-IsFirstFree, next_workday-first}
use etask.Cancellation.Delivery.{cancellation_backoff}
use etask.Cancellation.Backoff.{cancellation_backoff-bounds, cancellation_backoff-doubles}
use etask.Dispatch.Routing.{plan, grpc_route, in_mode}
use etask.Dispatch.Routing.Sound.{plan_sound}
use etask.Examples.Sample.{a_route, waiting_task, some_services, running_execution}

status-proto-roundtrip_example :
    (status_to_proto (status_from_proto proto_running) ≡ proto_running)
    × ((status_from_proto (status_to_proto prepare) ≡ prepare)
        ⊎ ((status_from_proto (status_to_proto prepare) ≡ unknown)
            × ((prepare ≡ waiting_pull) ⊎ (prepare ≡ prepare))))
status-proto-roundtrip_example = status-proto-roundtrip proto_running prepare

non_terminal_statuses-exact_example : status_in non_terminal_statuses running ≡ (
    if is_valid_status running then (if is_terminal_status running then false else true) else false)
non_terminal_statuses-exact_example = non_terminal_statuses-exact running

validate_route_sound_example : IsDispatchable a_route
unfolding validate_route
validate_route_sound_example = validate_route_sound a_route refl

a_route-IsDispatchable : IsDispatchable a_route
a_route-IsDispatchable = record {
  known = ground arith;
  mode = inl refl;
  grpc_pool = λ _. refl;
  mq_pool = λ _. refl;
  mq_topic = ground arith;
  push_target = λ _ _. refl;
}

validate_route_complete_example : validate_route a_route ≡ ok tt
validate_route_complete_example = validate_route_complete a_route a_route-IsDispatchable

plan_sound_example : IsDispatchable a_route × (waiting_task ≡ in_mode push waiting_task)
unfolding plan grpc_route validate_route
plan_sound_example = plan_sound some_services waiting_task waiting_task a_route refl

abbrev strategy : ExponentialBackoff
strategy = record {
  initial_interval = pos 1000;
  max_interval = pos 60000;
  max_retries = pos 5;
  retries = pos 0;
  max_interval_reached = false;
}

next_with_retries-bounds_example :
    (ltb_ℤ (pos 0) (next_with_retries (λ n. pos 0) strategy (pos 3)).1 ≡ true)
    × (leb_ℤ (next_with_retries (λ n. pos 0) strategy (pos 3)).1 (pos 60000) ≡ true)
unfolding next_with_retries interval_for mul_64 power_of_two wrap_32 ◌+ℤ◌
next_with_retries-bounds_example = next_with_retries-bounds (λ n. pos 0) strategy (pos 3) refl refl

next_with_retries-limit_example :
    ((next_with_retries (λ n. pos 0) strategy (pos 6)).2 ≡ false)
    ↔ ((ltb_ℤ (pos 0) (pos 5) ≡ true) × (ltb_ℤ (pos 5) (pos 6) ≡ true))
next_with_retries-limit_example = next_with_retries-limit (λ n. pos 0) strategy (pos 6)

next_with_retries-exact_example :
    next_with_retries (λ n. pos 0) strategy (pos 3) ≡ (strategy, pos (1000 * 2 ^ 2), true)
next_with_retries-exact_example =
    next_with_retries-exact (λ n. pos 0) strategy 1000 2 refl refl (omega arith) (omega arith)
      (omega arith) refl refl

-- A trigger a day, at 1 o'clock UTC, which is 9 o'clock at the offset of China; the days 4 and 5
-- are holidays.
abbrev AtNine : ℕ → Type 0
AtNine u = u % 86400000 ≡ 3600000

abbrev at_nine : ℕ → ℕ
at_nine t =
    if ltb (t % 86400000) 3600000 then t - t % 86400000 + 3600000 else t - t % 86400000 + 90000000

at_nine-IsSchedule : IsSchedule AtNine at_nine
at_nine-IsSchedule = record {
  ahead = λ t h. (ground arith, ground arith);
  least = λ t u h less is. ground arith;
  found = λ t u less near is. ground arith;
  whole = λ u is. omega arith;
}

abbrev a_holiday : ℕ → Bool
a_holiday n = if n == 4 then true else n == 5

-- the evening of day 3
abbrev the_evening : ℕ
the_evening = 300000000

next_workday-IsFirstFree_example : IsFirstFree AtNine at_nine a_holiday 28800 the_evening 522000000
unfolding next_workday skip_holidays end_of_day day_of
next_workday-IsFirstFree_example =
    next_workday-IsFirstFree AtNine at_nine a_holiday 28800 the_evening at_nine-IsSchedule
      (omega arith) (λ e. absurd (omega arith))

next_workday-first_example :
    (next_workday at_nine a_holiday 28800 the_evening ≢ 0)
    × IsFirstFree AtNine at_nine a_holiday 28800 the_evening
        (next_workday at_nine a_holiday 28800 the_evening)
unfolding day_of
next_workday-first_example =
    next_workday-first AtNine at_nine a_holiday 28800 the_evening 608400000 at_nine-IsSchedule
      (omega arith) (omega arith) refl refl (omega arith)

cancellation_backoff-bounds_example :
    (1000 ≤ cancellation_backoff 4)
    × (cancellation_backoff 4 ≤ 64000)
    × (cancellation_backoff 4 ≤ cancellation_backoff 5)
cancellation_backoff-bounds_example = cancellation_backoff-bounds 4

cancellation_backoff-doubles_example : cancellation_backoff 5 ≡ 2 * cancellation_backoff 4
cancellation_backoff-doubles_example = cancellation_backoff-doubles 4 (omega arith)

params-precedence_example :
    (get_param "a" (grpc_params running_execution)
      ≡ or_else
          (get_param "a" (or_empty running_execution.schedule_params))
          (get_param "a" (grpc_params_of running_execution.grpc_config)))
    × (get_param "a" (or_empty (merge_task_schedule_params running_execution.schedule_params []))
        ≡ or_else (get_param "a" []) (get_param "a" (or_empty running_execution.schedule_params)))
unfolding get_param
params-precedence_example = params-precedence running_execution [] "a" (refl, tt) (refl, tt) tt
