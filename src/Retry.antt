-- ===== src/Retry.antt =====
-- pkg/retry: the exponential strategy of strategy/exponential.go, the fixed one of
-- strategy/fixed_internal.go, and `ToRetryComponentConfig` of internal/domain/task.go.
-- A duration is an int64 of nanoseconds. `2^n` goes through a float64, whose conversion to an int64
-- is exact below 2^63 and depends on the machine from there on: `out_of_range` stands for that.
pub mod Bounds
use etask.Base.{
  ℕ, ◌+◌, ◌-◌, ◌*◌, ◌^◌, Bool, true, false, ◌||◌, ℤ, pos, negsuc, ◌+ℤ◌, mul_64, wrap_32, leb_ℤ,
  ltb_ℤ, ltb, if◌then◌else◌,
}
use etask.Domain.Execution.{RetryConfig}

pub record ExponentialBackoff : Type 0 where
  pub initial_interval : ℤ
  pub max_interval : ℤ
  pub max_retries : ℤ
  pub retries : ℤ
  pub max_interval_reached : Bool

-- time.Duration(milliseconds) * time.Millisecond
abbrev pub from_millis : ℤ → ℤ
from_millis ms = mul_64 ms (pos 1000000)

-- `ToRetryComponentConfig`, then `NewRetry`
unfoldable pub new_retry : RetryConfig → ExponentialBackoff
new_retry c = record {
  initial_interval = from_millis c.initial_interval;
  max_interval = from_millis c.max_interval;
  max_retries = c.max_retries;
  retries = pos 0;
  max_interval_reached = false;
}

-- time.Duration(math.Pow(2, n)): a negative power is a fraction, and is cut to 0
unfoldable pub power_of_two : (ℕ → ℤ) → ℤ → ℤ
power_of_two out_of_range (negsuc n) = pos 0
power_of_two out_of_range (pos n) = if ltb n 63 then pos (2 ^ n) else out_of_range n

unfoldable pub interval_for : (ℕ → ℤ) → ExponentialBackoff → ℤ → ℤ
interval_for out_of_range s retries =
    mul_64 s.initial_interval (power_of_two out_of_range (wrap_32 (retries +ℤ negsuc 0)))

-- the strategy after the call, the interval, and whether to try again
unfoldable pub next_with_retries : (ℕ → ℤ) → ExponentialBackoff → ℤ → ExponentialBackoff × ℤ × Bool
next_with_retries out_of_range s retries =
    let interval = interval_for out_of_range s retries in
    if leb_ℤ s.max_retries (pos 0) || leb_ℤ retries s.max_retries
    then (if s.max_interval_reached
        then (s, s.max_interval, true)
        else if leb_ℤ interval (pos 0) || ltb_ℤ s.max_interval interval
        then (record s { max_interval_reached = true }, s.max_interval, true)
        else (s, interval, true))
    else (s, pos 0, false)

-- `Next`: the counter is an int32 that wraps.
unfoldable pub next : (ℕ → ℤ) → ExponentialBackoff → ExponentialBackoff × ℤ × Bool
next out_of_range s =
    let n = wrap_32 (s.retries +ℤ pos 1) in
    next_with_retries out_of_range (record s { retries = n }) n

pub record FixedInterval : Type 0 where
  pub interval : ℤ
  pub fixed_max_retries : ℤ

unfoldable pub fixed_next_with_retries : FixedInterval → ℤ → ℤ × Bool
fixed_next_with_retries s retries =
    if leb_ℤ s.fixed_max_retries (pos 0) || leb_ℤ retries s.fixed_max_retries
    then (s.interval, true)
    else (pos 0, false)
