-- ===== src/Domain/Job/Types.antt =====
-- A durable job and its lease, src/domain/job.rs. Instants are nanoseconds from chrono's first
-- instant, durations signed nanoseconds, a UUID its 128-bit number; `Value` is serde_json's.
use werrss.Common.{
  ℕ, ◌+◌, ℤ, pos, ◌≡◌, Bool, true, false, Option, none, some, List, [], ◌∷◌, Text, ltb,
  if◌then◌else◌,
}

pub data JobType : Type 0 where
  source_sync feed_rebuild article_backfill credential_refresh asset_repair asset_refresh : JobType

abbrev pub all_job_types : List JobType
all_job_types =
    source_sync ∷ feed_rebuild ∷ article_backfill ∷ credential_refresh ∷ asset_repair
    ∷ asset_refresh ∷ []

unfoldable pub requires_browser : JobType → Bool
requires_browser source_sync = true
requires_browser article_backfill = true
requires_browser asset_refresh = true
requires_browser _ = false

pub data JobStatus : Type 0 where
  queued running retry_wait deferred succeeded failed : JobStatus

abbrev pub is_active : JobStatus → Bool
is_active queued = true
is_active running = true
is_active retry_wait = true
is_active deferred = true
is_active _ = false

abbrev pub is_terminal : JobStatus → Bool
is_terminal succeeded = true
is_terminal failed = true
is_terminal _ = false

-- `matches!(status, Queued | RetryWait | Deferred)`.
abbrev pub is_waiting : JobStatus → Bool
is_waiting queued = true
is_waiting retry_wait = true
is_waiting deferred = true
is_waiting _ = false

abbrev pub is_running : JobStatus → Bool
is_running running = true
is_running _ = false

-- The `operation` strings of `InvalidTransition`.
pub data Operation : Type 0 where
  claim_op defer_op heartbeat_op succeed_op retry_op fail_op cancel_op : Operation

-- The `reason` strings of `InvalidPersistedState`.
pub data Reason : Type 0 where
  failure_count_limit dedupe_key_empty running_unclaimed running_lease_incomplete : Reason
  running_owner_empty running_finished running_exhausted waiting_leased : Reason
  waiting_finished waiting_exhausted terminal_leased terminal_unfinished : Reason

pub data JobError : Type 0 where
  invalid_attempt_limit empty_dedupe_key empty_lease_owner invalid_lease_duration : JobError
  not_due attempts_exhausted claim_count_overflow failure_count_overflow : JobError
  invalid_deferral_time lease_owner_mismatch lease_token_mismatch lease_expired : JobError
  lease_missing empty_error : JobError
  invalid_transition : JobStatus → Operation → JobError
  invalid_persisted_state : Reason → JobError

pub record NewJob (Value : Type 0) : Type 0 where
  pub job_type : JobType
  pub source_id : Option ℕ
  pub priority : ℤ
  pub run_after : ℕ
  pub max_attempts : ℕ
  pub payload : Value
  pub dedupe_key : Text
  pub now : ℕ

pub record Job (Value : Type 0) : Type 0 where
  pub id : ℕ
  pub job_type : JobType
  pub source_id : Option ℕ
  pub status : JobStatus
  pub priority : ℤ
  pub run_after : ℕ
  pub claim_count : ℕ
  pub failure_count : ℕ
  pub max_attempts : ℕ
  pub lease_owner : Option Text
  pub lease_token : Option ℕ
  pub lease_until : Option ℕ
  pub heartbeat_at : Option ℕ
  pub started_at : Option ℕ
  pub finished_at : Option ℕ
  pub last_error : Option Text
  pub payload : Value
  pub dedupe_key : Text
  pub created_at : ℕ
  pub updated_at : ℕ

abbrev pub u32_max : ℕ
u32_max = 4294967295

-- `u32::checked_add(1)` and `u32::saturating_add(1)`.
abbrev pub checked_inc : ℕ → Option ℕ
checked_inc n = if ltb n u32_max then some (n + 1) else none

abbrev pub saturating_inc : ℕ → ℕ
saturating_inc n = if ltb n u32_max then n + 1 else u32_max

-- chrono's `DateTime::checked_add_signed`, which is not part of the repository.
pub record Clock : Type 0 where
  pub checked_add_signed : ℕ → ℤ → Option ℕ

-- Where an addition of a positive duration gives an instant, it is the sum.
pub record IsExact (c : Clock) : Type 0 where
  pub exact : (t n u : ℕ) → c.checked_add_signed t (pos n) ≡ some u → u ≡ t + n
