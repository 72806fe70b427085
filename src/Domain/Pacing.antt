-- ===== src/Domain/Pacing.antt =====
-- Pacing limits and quiet hours, src/domain/pacing.rs. Delay distributions hold floats and are a
-- type of the caller's; a local time is its nanosecond of the day and a date its day number.
pub mod Quiet
use werrss.Common.{
  ℕ, ◌≡◌, Bool, true, false, not, ◌&&◌, ◌||◌, Option, none, some, ltb, leb, ◌==◌, if◌then◌else◌,
  Result, ok, err,
}

abbrev pub max_scroll_steps_limit : ℕ
max_scroll_steps_limit = 64

abbrev pub max_scroll_pixels_limit : ℕ
max_scroll_pixels_limit = 1000000

pub data DelayKind : Type 0 where
  request page_navigation page_action scroll_settle : DelayKind

pub data PacingError : Type 0 where
  equal_quiet_hour_endpoints invalid_scroll_limits : PacingError
  too_many_scroll_steps too_many_scroll_pixels : PacingError

pub record PacingPolicy (Distribution : Type 0) : Type 0 where
  pub request_delay : Distribution
  pub navigation_delay : Distribution
  pub action_delay : Distribution
  pub settle_delay : Distribution
  pub max_scroll_steps : ℕ
  pub max_scroll_pixels : ℕ
  pub max_page_operation : ℕ

module _ {Distribution : Type 0} where
  -- `PacingPolicy::new`, its arguments as a policy.
  unfoldable pub new_policy :
      PacingPolicy Distribution → Result PacingError (PacingPolicy Distribution)
  new_policy p =
      if p.max_scroll_steps == 0 || (p.max_scroll_pixels == 0 || p.max_page_operation == 0)
      then err invalid_scroll_limits
      else if ltb max_scroll_steps_limit p.max_scroll_steps
      then err too_many_scroll_steps
      else if ltb max_scroll_pixels_limit p.max_scroll_pixels
      then err too_many_scroll_pixels
      else ok p

  unfoldable pub distribution : PacingPolicy Distribution → DelayKind → Distribution
  distribution p request = p.request_delay
  distribution p page_navigation = p.navigation_delay
  distribution p page_action = p.action_delay
  distribution p scroll_settle = p.settle_delay

-- chrono's `LocalResult`.
pub data LocalResult : Type 0 where
  single : ℕ → LocalResult
  ambiguous : ℕ → ℕ → LocalResult
  missing : LocalResult

-- A time zone of chrono-tz and chrono's dates, which are not part of the repository: the local date
-- and time of an instant, the instants of a local date and time, and the day after a date.
pub record Zone : Type 0 where
  pub date_of : ℕ → ℕ
  pub time_of : ℕ → ℕ
  pub from_local : ℕ → ℕ → LocalResult
  pub succ_opt : ℕ → Option ℕ

pub record QuietHours : Type 0 where
  pub timezone : Zone
  pub start : ℕ
  pub end : ℕ

unfoldable pub new_quiet_hours : Zone → ℕ → ℕ → Result PacingError QuietHours
new_quiet_hours timezone start end =
    if start == end
    then err equal_quiet_hour_endpoints
    else ok (record { timezone = timezone; start = start; end = end })

unfoldable pub is_quiet_at : QuietHours → ℕ → Bool
is_quiet_at q instant =
    let local_time = q.timezone.time_of instant in
    if ltb q.start q.end
    then leb q.start local_time && ltb local_time q.end
    else leb q.start local_time || ltb local_time q.end

abbrev pub later : ℕ → ℕ → ℕ
later a b = if leb a b then b else a

abbrev pub latest : LocalResult → Option ℕ
latest (single instant) = some instant
latest (ambiguous first second) = some (later first second)
latest missing = none

-- `date_naive().succ_opt()?`, then the end on that date.
abbrev pub end_on : QuietHours → Option ℕ → Option ℕ
end_on q none = none
end_on q (some date) = latest (q.timezone.from_local date q.end)

unfoldable pub next_allowed_at : QuietHours → ℕ → Option ℕ
unfolding is_quiet_at
next_allowed_at q instant =
    let date = q.timezone.date_of instant in
    if not (is_quiet_at q instant)
    then some instant
    else if ltb q.start q.end || ltb (q.timezone.time_of instant) q.end
    then end_on q (some date)
    else end_on q (q.timezone.succ_opt date)
