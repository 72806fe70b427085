-- ===== src/Tests/PacingRuns.antt =====
-- Runs of the quiet hours and of the scroll plan, src/domain/pacing.rs and
-- src/acquisition/pacing.rs.
use werrss.Common.{ℕ, ◌+◌, ◌*◌, ◌/◌, ◌%◌, ◌≤◌, refl, some, if◌then◌else◌, arith, ltb}
use werrss.Domain.Pacing.{
  Zone, QuietHours, single, missing, new_quiet_hours, next_allowed_at, PacingPolicy, new_policy,
}
use werrss.Domain.Pacing.Quiet.{ReadsBack, Answers, next_allowed_at-not_quiet}
use werrss.Acquisition.Pacing.{Generator, scroll_plan}
use werrss.Acquisition.Pacing.Bounds.{InRange, Fits, scroll_plan-Fits}

-- The nanoseconds of a day, and a zone without an offset.
abbrev day_length : ℕ
day_length = 86400000000000

abbrev utc : Zone
utc = record {
  date_of = λ t. t / day_length;
  time_of = λ t. t % day_length;
  from_local =
      λ date time. if ltb time day_length then single (date * day_length + time) else missing;
  succ_opt = λ date. some (date + 1);
}

utc-ReadsBack : ReadsBack utc
utc-ReadsBack = record {
  once = λ date time t h. grind arith;
  twice = λ date time a b h. ground arith;
}

-- From 22 o'clock to 6 o'clock.
abbrev night : QuietHours
night = record { timezone = utc; start = 79200000000000; end = 21600000000000 }

abbrev late_evening : ℕ
late_evening = 82800000000000

next_allowed_at-not_quiet_example : Answers night late_evening (next_allowed_at night late_evening)
unfolding new_quiet_hours
next_allowed_at-not_quiet_example =
    next_allowed_at-not_quiet utc 79200000000000 21600000000000 late_evening night utc-ReadsBack
      refl

-- A generator that draws the low end of every range.
abbrev low_end : Generator ℕ
low_end = record { Rng = ℕ; range = λ low high r. (low, r); sample = λ d r. (d, r) }

low_end-InRange : InRange low_end
low_end-InRange = record { bounds = λ low high r h. omega arith }

abbrev policy : PacingPolicy ℕ
policy = record {
  request_delay = 1;
  navigation_delay = 2;
  action_delay = 3;
  settle_delay = 4;
  max_scroll_steps = 8;
  max_scroll_pixels = 6000;
  max_page_operation = 90;
}

scroll_plan-Fits_example :
    (rounds : ℕ) × (1 ≤ rounds)
    × (rounds ≤ 8)
    × Fits rounds 400 800 6000 (scroll_plan low_end policy 800 0)
unfolding new_policy
scroll_plan-Fits_example = scroll_plan-Fits low_end low_end-InRange policy policy 800 0 refl
