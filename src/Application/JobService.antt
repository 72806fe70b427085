-- ===== src/Application/JobService.antt =====
-- The job service, src/application/job_service.rs: it binds the configured owner, lease and batch
-- limit to the repository's operations. Logging is left out.
pub mod Cycle
use werrss.Common.{
  ℕ, ℤ, is_positive, ltb, Option, List, Text, is_empty, trim, Result, ok, err, Method,
  if◌then◌else◌, not, ◌||◌,
}
use werrss.Domain.Job.{Job, JobType, NewJob, Clock}
use werrss.Persistence.JobStore.{
  JobRepositoryError, Store, EnqueueResult, JobLease, Transaction, JobOutcome, deferred_outcome,
  succeeded_outcome, retry_outcome, failed_outcome, cancelled_outcome, enqueue_in_store,
  claim_next_in_store, heartbeat_in_store, recover_expired_in_store, apply_outcome, lookup,
}

abbrev pub max_recovery_batch_limit : ℕ
max_recovery_batch_limit = 1000

pub record JobServiceConfig : Type 0 where
  pub owner : Text
  pub lease_for : ℤ
  pub recovery_batch_limit : ℕ

pub data JobServiceConfigError : Type 0 where
  empty_owner invalid_lease : JobServiceConfigError
  recovery_limit_too_large : ℕ → JobServiceConfigError

-- chrono's `Duration::num_milliseconds`, which is not part of the repository, is an argument.
unfoldable pub new_config :
    (num_milliseconds : ℤ → ℤ) → Text → ℤ → ℕ → Result JobServiceConfigError JobServiceConfig
unfolding trim
new_config num_milliseconds given lease_for limit =
    let owner = trim given in
    if is_empty owner
    then err empty_owner
    else if not (is_positive lease_for) || not (is_positive (num_milliseconds lease_for))
    then err invalid_lease
    else if ltb max_recovery_batch_limit limit
    then err (recovery_limit_too_large limit)
    else ok (record { owner = owner; lease_for = lease_for; recovery_batch_limit = limit })

-- `JobOutcomeKind`.
pub data JobOutcomeKind : Type 0 where
  succeeds : (now : ℕ) → JobOutcomeKind
  defers : (now resume_at : ℕ) → JobOutcomeKind
  retries : (now retry_at : ℕ) → Text → JobOutcomeKind
  fails : (now : ℕ) → Text → JobOutcomeKind

module _ {Value : Type 0} (config : JobServiceConfig) where
  unfoldable pub enqueue :
      ℕ → NewJob Value → Method (Store Value) JobRepositoryError (EnqueueResult Value)
  enqueue id spec = enqueue_in_store id spec

  unfoldable pub claim_next :
      Clock
      → ℕ
      → ℕ
      → List JobType
      → Method (Store Value) JobRepositoryError (Option (JobLease Value))
  claim_next c token now allowed =
      claim_next_in_store c token config.owner now config.lease_for allowed

  unfoldable pub find : ℕ → Store Value → Option (Job Value)
  find id jobs = lookup id jobs

  unfoldable pub heartbeat :
      Clock → JobLease Value → ℕ → Method (Store Value) JobRepositoryError (Job Value)
  heartbeat c lease now =
      heartbeat_in_store c lease.job.id config.owner lease.token now config.lease_for

  unfoldable pub recover_expired : ℕ → Store Value → Option (Store Value × List (Job Value))
  recover_expired now jobs = recover_expired_in_store now config.recovery_batch_limit jobs

  unfoldable pub lease_outcome : JobLease Value → JobOutcomeKind → JobOutcome
  lease_outcome lease (succeeds now) = succeeded_outcome lease.job.id config.owner lease.token now
  lease_outcome lease (defers now resume_at) =
      deferred_outcome lease.job.id config.owner lease.token now resume_at
  lease_outcome lease (retries now retry_at error) =
      retry_outcome lease.job.id config.owner lease.token now retry_at error
  lease_outcome lease (fails now error) =
      failed_outcome lease.job.id config.owner lease.token now error

  -- `succeed`, `defer`, `retry` and `fail`, each by its kind of outcome.
  unfoldable pub apply_lease_outcome :
      JobLease Value → JobOutcomeKind → Method (Transaction Value) JobRepositoryError (Job Value)
  unfolding lease_outcome
  apply_lease_outcome lease kind = apply_outcome (lease_outcome lease kind)

  unfoldable pub cancel : ℕ → ℕ → Text → Method (Transaction Value) JobRepositoryError (Job Value)
  cancel id now reason = apply_outcome (cancelled_outcome id now reason)
