-- ===== src/Calendar/First.antt =====
-- The loop over the holidays finds the first trigger of the schedule on a day that is none.
use etask.Base.{
  ℕ, zero, suc, ◌+◌, ◌%◌, ◌≤◌, ◌<◌, ◌≡◌, ◌≢◌, refl, inl, inr, Bool, true, false, arith, ◌==◌,
  Bool-cases,
}
use etask.Calendar.{day_of, end_of_day, skip_holidays, next_workday}

module _ (offset : ℕ) (in_a_day : offset < 86400) where
  ends_later : (t : ℕ) → t % 1000 ≡ 0 → t ≤ end_of_day offset t
  unfolding end_of_day day_of
  ends_later t whole = omega arith

  next_day_later : (t v : ℕ) → day_of offset t < day_of offset v → end_of_day offset t < v
  unfolding end_of_day day_of
  next_day_later t v h = omega arith

  later_next_day :
      (t v : ℕ) → v % 1000 ≡ 0 → end_of_day offset t < v → day_of offset t < day_of offset v
  unfolding end_of_day day_of
  later_next_day t v whole h = omega arith

  days_order : (a b : ℕ) → a ≤ b → day_of offset a ≤ day_of offset b
  unfolding day_of
  days_order a b h = omega arith

  days_near :
      (t u k : ℕ)
      → day_of offset u < day_of offset t + k
      → k ≤ 367
      → u ≤ end_of_day offset t + 126144000000
  unfolding end_of_day day_of
  days_near t u k h less = omega arith

-- What the documentation of robfig/cron says of a schedule whose triggers are the times for which
-- `Trigger` holds: `inner` gives the first one after a time, at a whole second, and 0 only if there
-- is none in the next four years at least (it looks five years ahead).
pub record IsSchedule (Trigger : ℕ → Type 0) (inner : ℕ → ℕ) : Type 0 where
  pub ahead : (t : ℕ) → inner t ≢ 0 → (t < inner t) × Trigger (inner t)
  pub least : (t u : ℕ) → inner t ≢ 0 → t < u → Trigger u → inner t ≤ u
  pub found : (t u : ℕ) → t < u → u ≤ t + 126144000000 → Trigger u → inner t ≢ 0
  pub whole : (u : ℕ) → Trigger u → u % 1000 ≡ 0

module _ (Trigger : ℕ → Type 0) (inner : ℕ → ℕ) (is_holiday : ℕ → Bool) (offset : ℕ) where
  abbrev pub IsFree : ℕ → Type 0
  IsFree t = is_holiday (day_of offset t) ≡ false

  -- `r` is the first trigger after `t` on a day that is no holiday.
  pub record IsFirstFree (t r : ℕ) : Type 0 where
    pub after : t < r
    pub trigger : Trigger r
    pub free : IsFree r
    pub first : (u : ℕ) → t < u → Trigger u → IsFree u → r ≤ u

  -- a trigger after `t` before which none is free
  record IsBound (t next : ℕ) : Type 0 where
    after : t < next
    trigger : Trigger next
    below : (u : ℕ) → t < u → Trigger u → IsFree u → next ≤ u

  module _ (schedule : IsSchedule Trigger inner) (in_a_day : offset < 86400) where
    past_holiday :
        (next u : ℕ)
        → is_holiday (day_of offset next) ≡ true
        → IsFree u
        → next ≤ u
        → end_of_day offset next < u
    past_holiday next u holiday free order =
        let days = days_order offset in_a_day next u order in
        let differ : day_of offset next ≢ day_of offset u = λ e. absurd (ground arith) in
        next_day_later offset in_a_day next u (omega (arith, days, differ))

    first-IsBound : (t : ℕ) → inner t ≢ 0 → IsBound t (inner t)
    first-IsBound t some_next = record {
      after = (schedule.ahead t some_next).0;
      trigger = (schedule.ahead t some_next).1;
      below = λ u later is free. schedule.least t u some_next later is;
    }

    next-IsBound :
        (t next : ℕ)
        → IsBound t next
        → is_holiday (day_of offset next) ≡ true
        → inner (end_of_day offset next) ≢ 0
        → IsBound t (inner (end_of_day offset next))
    next-IsBound t next b holiday some_next =
        let eod = end_of_day offset next in
        let goes = schedule.ahead eod some_next in
        let ends = ends_later offset in_a_day next (schedule.whole next b.trigger) in
        record {
          after = omega (arith, b.after, ends, goes.0);
          trigger = goes.1;
          below = λ u later is free.
              schedule.least eod u some_next
                (past_holiday next u holiday free (b.below u later is free)) is;
        }

    skip-IsFirstFree :
        (t k next : ℕ)
        → (next ≢ 0 → IsBound t next)
        → skip_holidays inner is_holiday offset k next ≢ 0
        → IsFirstFree t (skip_holidays inner is_holiday offset k next)
    unfolding skip_holidays
    skip-IsFirstFree t zero next b h = absurd (h refl)
    skip-IsFirstFree t (suc k) next b h = elim (Bool-cases (next == 0)) [
      | inl e ↦ absurd (h (ground arith))
      | inr e ↦
          let here = b (ground arith) in
          elim (Bool-cases (is_holiday (day_of offset next))) [
            | inr f ↦
                let it : IsFirstFree t next = record {
                  after = here.after;
                  trigger = here.trigger;
                  free = f;
                  first = here.below;
                } in
                rw (e, f) it
            | inl f ↦
                let ih =
                  skip-IsFirstFree t k (inner (end_of_day offset next)) (next-IsBound t next here f)
                    (rw (e, f) at h) in
                rw (e, f) ih
          ]
    ]

    skip-some :
        (t u k next : ℕ)
        → Trigger u
        → IsFree u
        → next ≢ 0
        → next ≤ u
        → k ≤ 366
        → day_of offset u < day_of offset next + k
        → skip_holidays inner is_holiday offset k next ≢ 0
    unfolding skip_holidays
    skip-some t u zero next is free some_next order small near =
        absurd (omega (arith, days_order offset in_a_day next u order))
    skip-some t u (suc k) next is free some_next order small near =
        let nonzero : (next == 0) ≡ false = ground arith in
        elim (Bool-cases (is_holiday (day_of offset next))) [
          | inr f ↦ rw (nonzero, f) some_next
          | inl f ↦
              let eod = end_of_day offset next in
              let past = past_holiday next u f free order in
              let some_later =
                schedule.found eod u past
                  (days_near offset in_a_day next u (suc k) near (omega arith)) is in
              let goes = schedule.ahead eod some_later in
              let days =
                later_next_day offset in_a_day next (inner eod) (schedule.whole (inner eod) goes.1)
                  goes.0 in
              let ih =
                skip-some t u k (inner eod) is free some_later
                  (schedule.least eod u some_later past is) (omega arith)
                  (omega (arith, days, near)) in
              rw (nonzero, f) ih
        ]

days_ahead : (offset t u : ℕ) → day_of offset u < day_of offset t + 366 → u ≤ t + 126144000000
unfolding day_of
days_ahead offset t u h = omega arith

next_workday_given :
    (Trigger : ℕ → Type 0) (inner : ℕ → ℕ) (is_holiday : ℕ → Bool) (offset t u : ℕ)
    → IsSchedule Trigger inner
    → offset < 86400
    → t < u
    → Trigger u
    → is_holiday (day_of offset u) ≡ false
    → day_of offset u < day_of offset t + 366
    → next_workday inner is_holiday offset t ≢ 0
unfolding next_workday
next_workday_given Trigger inner is_holiday offset t u schedule in_a_day later is free near =
    let some_next = schedule.found t u later (days_ahead offset t u near) is in
    let goes = schedule.ahead t some_next in
    let days = days_order offset in_a_day t (inner t) (omega (arith, goes.0)) in
    skip-some Trigger inner is_holiday offset schedule in_a_day t u 366 (inner t) is free some_next
      (schedule.least t u some_next later is) (omega arith) (omega (arith, days, near))

-- Of a schedule that gives the first trigger after a time, at whole seconds, and that looks four
-- years ahead, in a location that is less than a day ahead of UTC: where `Next` gives a time, it is
-- a trigger after the given time, on a day of the location that is no holiday, and no trigger
-- between the two is on such a day.
pub next_workday-IsFirstFree :
    (Trigger : ℕ → Type 0) (inner : ℕ → ℕ) (is_holiday : ℕ → Bool) (offset t : ℕ)
    → IsSchedule Trigger inner
    → offset < 86400
    → next_workday inner is_holiday offset t ≢ 0
    → IsFirstFree Trigger inner is_holiday offset t (next_workday inner is_holiday offset t)
unfolding next_workday
next_workday-IsFirstFree Trigger inner is_holiday offset t schedule in_a_day given =
    skip-IsFirstFree Trigger inner is_holiday offset schedule in_a_day t 366 (inner t)
      (first-IsBound Trigger inner is_holiday offset schedule in_a_day t) given

-- Of a schedule that gives the first trigger after a time, at whole seconds, and that looks four
-- years ahead, in a location that is less than a day ahead of UTC: where some trigger after the
-- given time is on a day that is no holiday, fewer than 366 days after the day of the given time,
-- the loop of `Next` ends with a time, and that is the first such trigger.
pub next_workday-first :
    (Trigger : ℕ → Type 0) (inner : ℕ → ℕ) (is_holiday : ℕ → Bool) (offset t u : ℕ)
    → IsSchedule Trigger inner
    → offset < 86400
    → t < u
    → Trigger u
    → is_holiday (day_of offset u) ≡ false
    → day_of offset u < day_of offset t + 366
    → (next_workday inner is_holiday offset t ≢ 0)
      × IsFirstFree Trigger inner is_holiday offset t (next_workday inner is_holiday offset t)
next_workday-first Trigger inner is_holiday offset t u schedule in_a_day later is free near =
    let given =
      next_workday_given Trigger inner is_holiday offset t u schedule in_a_day later is free near in
    (given, next_workday-IsFirstFree Trigger inner is_holiday offset t schedule in_a_day given)
