-- ===== src/Domain/Sync.antt =====
-- Synchronization runs, src/domain/sync.rs. Instants and UUIDs are as in Domain/Job.
pub mod Failures
pub mod Runs
use werrss.Common.{
  ℕ, ◌≡◌, Bool, true, false, not, ◌||◌, Option, none, some, Text, codes, text_eq, trim, is_empty,
  utf8_len, ltb, ◌==◌, if◌then◌else◌, is_some, Result, ok, err,
}

pub data SyncOutcome : Type 0 where
  running succeeded deferred authentication_required risk_controlled blocked : SyncOutcome
  retryable_failure failed : SyncOutcome

pub data SyncFailureClass : Type 0 where
  authentication_expired class_risk_controlled class_blocked retryable permanent : SyncFailureClass

pub data SyncError : Type 0 where
  invalid_id invalid_source_id invalid_job_id invalid_outcome invalid_failure_class : SyncError
  missing_failure unexpected_failure mismatched_failure_class empty_failure_message : SyncError
  failure_message_too_long already_finished completion_before_start : SyncError

unfoldable pub as_str : SyncOutcome → Text
as_str running = codes "running"
as_str succeeded = codes "succeeded"
as_str deferred = codes "deferred"
as_str authentication_required = codes "authentication_required"
as_str risk_controlled = codes "risk_controlled"
as_str blocked = codes "blocked"
as_str retryable_failure = codes "retryable_failure"
as_str failed = codes "failed"

unfoldable pub parse : Text → Result SyncError SyncOutcome
unfolding text_eq
parse value =
    if text_eq value (codes "running")
    then ok running
    else if text_eq value (codes "succeeded")
    then ok succeeded
    else if text_eq value (codes "deferred")
    then ok deferred
    else if text_eq value (codes "authentication_required")
    then ok authentication_required
    else if text_eq value (codes "risk_controlled")
    then ok risk_controlled
    else if text_eq value (codes "blocked")
    then ok blocked
    else if text_eq value (codes "retryable_failure")
    then ok retryable_failure
    else if text_eq value (codes "failed")
    then ok failed
    else err invalid_outcome

unfoldable pub class_as_str : SyncFailureClass → Text
class_as_str authentication_expired = codes "authentication_expired"
class_as_str class_risk_controlled = codes "risk_controlled"
class_as_str class_blocked = codes "blocked"
class_as_str retryable = codes "retryable"
class_as_str permanent = codes "permanent"

unfoldable pub class_parse : Text → Result SyncError SyncFailureClass
unfolding text_eq
class_parse value =
    if text_eq value (codes "authentication_expired")
    then ok authentication_expired
    else if text_eq value (codes "risk_controlled")
    then ok class_risk_controlled
    else if text_eq value (codes "blocked")
    then ok class_blocked
    else if text_eq value (codes "retryable")
    then ok retryable
    else if text_eq value (codes "permanent")
    then ok permanent
    else err invalid_failure_class

abbrev pub is_finished : SyncOutcome → Bool
is_finished running = false
is_finished _ = true

abbrev pub requires_failure : SyncOutcome → Bool
requires_failure authentication_required = true
requires_failure risk_controlled = true
requires_failure blocked = true
requires_failure retryable_failure = true
requires_failure failed = true
requires_failure _ = false

pub record SyncFailure : Type 0 where
  pub class : SyncFailureClass
  pub message : Text

unfoldable pub new_failure : SyncFailureClass → Text → Result SyncError SyncFailure
new_failure class given =
    let message = trim given in
    if is_empty message
    then err empty_failure_message
    else if ltb 4096 (utf8_len message)
    then err failure_message_too_long
    else ok (record { class = class; message = message })

pub record SyncStats : Type 0 where
  pub articles_seen : ℕ
  pub articles_created : ℕ
  pub articles_updated : ℕ
  pub articles_failed : ℕ
  pub archived_articles : ℕ
  pub archived_assets : ℕ

abbrev pub no_stats : SyncStats
no_stats = record {
  articles_seen = 0;
  articles_created = 0;
  articles_updated = 0;
  articles_failed = 0;
  archived_articles = 0;
  archived_assets = 0;
}

pub record NewSyncRun : Type 0 where
  pub id : ℕ
  pub source_id : ℕ
  pub job_id : Option ℕ
  pub started_at : ℕ

pub record SyncRunCompletion : Type 0 where
  pub outcome : SyncOutcome
  pub finished_at : ℕ
  pub stats : SyncStats
  pub failure : Option SyncFailure
  pub feed_revision : Option ℕ

-- `SyncRunParts` has the same fields.
pub record SyncRun : Type 0 where
  pub id : ℕ
  pub source_id : ℕ
  pub job_id : Option ℕ
  pub outcome : SyncOutcome
  pub stats : SyncStats
  pub failure : Option SyncFailure
  pub feed_revision : Option ℕ
  pub started_at : ℕ
  pub finished_at : Option ℕ
  pub created_at : ℕ
  pub updated_at : ℕ

-- The `match outcome` on a given failure.
unfoldable pub class_matches : SyncOutcome → SyncFailureClass → Bool
class_matches authentication_required authentication_expired = true
class_matches risk_controlled class_risk_controlled = true
class_matches blocked class_blocked = true
class_matches retryable_failure retryable = true
class_matches failed permanent = true
class_matches failed retryable = true
class_matches _ _ = false

abbrev failure_matches : SyncOutcome → Option SyncFailure → Bool
failure_matches outcome none = true
failure_matches outcome (some failure) = class_matches outcome failure.class

abbrev same : Bool → Bool → Bool
same true b = b
same false b = not b

unfoldable pub validate_outcome :
    SyncOutcome → Option SyncFailure → Option ℕ → Result SyncError (Unit {0})
unfolding class_matches
validate_outcome outcome failure finished_at =
    if not (is_finished outcome)
    then (if is_some finished_at
        then err invalid_outcome
        else if is_some failure
        then err unexpected_failure
        else ok tt)
    else if not (is_some finished_at)
    then err invalid_outcome
    else if not (same (requires_failure outcome) (is_some failure))
    then (if requires_failure outcome then err missing_failure else err unexpected_failure)
    else if not (failure_matches outcome failure)
    then err mismatched_failure_class
    else ok tt

-- `uuid.is_nil()`, inside an option.
abbrev is_nil_some : Option ℕ → Bool
is_nil_some none = false
is_nil_some (some id) = id == 0

unfoldable pub start : NewSyncRun → Result SyncError SyncRun
start spec =
    if spec.id == 0
    then err invalid_id
    else if spec.source_id == 0
    then err invalid_source_id
    else if is_nil_some spec.job_id
    then err invalid_job_id
    else ok (record {
      id = spec.id;
      source_id = spec.source_id;
      job_id = spec.job_id;
      outcome = running;
      stats = no_stats;
      failure = none;
      feed_revision = none;
      started_at = spec.started_at;
      finished_at = none;
      created_at = spec.started_at;
      updated_at = spec.started_at;
    })

-- `finished_at.is_some_and(|at| at < started_at)`.
abbrev ends_before : Option ℕ → ℕ → Bool
ends_before none started_at = false
ends_before (some at) started_at = ltb at started_at

unfoldable pub from_parts : SyncRun → Result SyncError SyncRun
from_parts parts =
    if parts.id == 0
    then err invalid_id
    else if parts.source_id == 0
    then err invalid_source_id
    else if is_nil_some parts.job_id
    then err invalid_job_id
    else if ends_before parts.finished_at parts.started_at
    then err completion_before_start
    else elim (validate_outcome parts.outcome parts.failure parts.finished_at) [
      | ok _ ↦ ok parts
      | err e ↦ err e
    ]

unfoldable pub finish : SyncRunCompletion → SyncRun → Result SyncError SyncRun
finish completion self =
    if is_finished self.outcome
    then err already_finished
    else if not (is_finished completion.outcome)
    then err invalid_outcome
    else if ltb completion.finished_at self.started_at
    then err completion_before_start
    else elim (validate_outcome completion.outcome completion.failure
        (some completion.finished_at)) [
          | ok _ ↦ ok (record self {
            outcome = completion.outcome;
            stats = completion.stats;
            failure = completion.failure;
            feed_revision = completion.feed_revision;
            finished_at = some completion.finished_at;
            updated_at = completion.finished_at;
          })
          | err e ↦ err e
        ]
