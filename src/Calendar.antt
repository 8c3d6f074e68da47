-- ===== src/Calendar.antt =====
-- internal/domain/calendar/schedule.go: the next trigger that falls on no public holiday. The cron
-- schedule (robfig/cron) and the table of holidays are parameters; 0 is the zero time. Times are in
-- milliseconds after 1970, and the location of a time is one whose offset does not change, as in
-- China: `offset` is the seconds by which its clock is ahead of UTC.
pub mod First
use etask.Base.{
  ℕ, zero, suc, ◌+◌, ◌-◌, ◌*◌, ◌/◌, ◌%◌, ◌≤◌, ◌<◌, ◌≡◌, ◌≢◌, Bool, ◌==◌, if◌then◌else◌,
}

-- the number of the day of a time in its location: Year, Month and Day
unfoldable pub day_of : ℕ → ℕ → ℕ
day_of offset t = (t + offset * 1000) / 86400000

-- time.Date(year, month, day, 23, 59, 59, 0, location)
unfoldable pub end_of_day : ℕ → ℕ → ℕ
unfolding day_of
end_of_day offset t = day_of offset t * 86400000 + 86399000 - offset * 1000

module _ (inner : ℕ → ℕ) (is_holiday : ℕ → Bool) (offset : ℕ) where
  -- the loop, with `next` computed: the iterations that are left
  unfoldable pub skip_holidays : ℕ → ℕ → ℕ
  skip_holidays zero next = 0
  skip_holidays (suc k) next =
      let later = skip_holidays k (inner (end_of_day offset next)) in
      if next == 0 then 0 else if is_holiday (day_of offset next) then later else next

  -- `Next`
  unfoldable pub next_workday : ℕ → ℕ
  unfolding skip_holidays
  next_workday t = skip_holidays 366 (inner t)
