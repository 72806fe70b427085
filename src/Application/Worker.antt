-- ===== src/Application/Worker.antt =====
-- One pass of a worker, src/application/worker.rs, over the in-memory repository. What happens while
-- the handler runs is a list of events: heartbeats of this worker, and operations of others. What
-- others do between the recovery of expired jobs and the claim is a list of operations.
pub mod Passes
pub mod Policy
pub mod Outcomes
pub mod Reports
pub mod Safety
use werrss.Common.{
  ℕ, ℤ, Bool, true, false, not, Option, none, some, List, [], ◌∷◌, Text, Result, ok, err, ltb, leb,
  ◌==◌, if◌then◌else◌, filter,
}
use werrss.Domain.Job.{Job, JobType, Clock, requires_browser}
use werrss.Persistence.JobStore.{
  JobRepositoryError, not_found, Store, JobLease, begin, commit, drop, lookup,
}
use werrss.Persistence.JobStore.History.{StoreCall, store_step, store_run}
use werrss.Application.JobService
use werrss.Application.JobService.{
  JobServiceConfig, JobOutcomeKind, succeeds, defers, retries, fails, claim_next, heartbeat,
  recover_expired, apply_lease_outcome,
}

pub data JobExecution : Type 0 where
  succeeded_execution committed_execution : JobExecution
  deferred_execution : (resume_at : ℕ) → JobExecution
  retry_execution : (retry_at : ℕ) → Text → JobExecution
  failed_execution : Text → JobExecution

pub record WorkerConfig : Type 0 where
  pub allowed_job_types : List JobType
  pub heartbeat_every : ℕ
  pub execution_timeout : ℕ

pub data WorkerConfigError : Type 0 where
  no_allowed_job_types invalid_heartbeat invalid_execution_timeout : WorkerConfigError
  invalid_lease heartbeat_not_shorter_than_lease : WorkerConfigError

abbrev no_types : List JobType → Bool
no_types [] = true
no_types (t ∷ types) = false

unfoldable pub new_with_execution_timeout :
    List JobType → ℕ → ℕ → Result WorkerConfigError WorkerConfig
new_with_execution_timeout types every timeout =
    if no_types types
    then err no_allowed_job_types
    else if every == 0
    then err invalid_heartbeat
    else if timeout == 0
    then err invalid_execution_timeout
    else ok
        (record { allowed_job_types = types; heartbeat_every = every; execution_timeout = timeout })

-- chrono's `Duration::to_std`, which is not part of the repository, is an argument.
unfoldable pub validate_for_lease :
    (to_std : ℤ → Option ℕ) → ℤ → WorkerConfig → Result WorkerConfigError (Unit {0})
validate_for_lease to_std lease_for config = elim (to_std lease_for) [
  | none ↦ err invalid_lease
  | some lease ↦
      if leb lease config.heartbeat_every then err heartbeat_not_shorter_than_lease else ok tt
]

pub data WorkerError : Type 0 where
  job_error heartbeat_error : JobRepositoryError → WorkerError

pub data WorkerRun (Value : Type 0) : Type 0 where
  idle : WorkerRun Value
  completed : (job : Job Value) → (outcome : JobExecution) → WorkerRun Value

-- `beat` is a tick of the heartbeat interval, `elsewhere` an operation of another replica.
pub data Event (Value : Type 0) : Type 0 where
  beat : Event Value
  elsewhere : StoreCall Value → Event Value

-- The outcome of the pass: when the handler does not end in time, a retry with the message that
-- names the timeout.
abbrev pub finished : ℕ → Text → Option JobExecution → JobExecution
finished now message none = retry_execution now message
finished now message (some outcome) = outcome

-- `readiness` is what the browser gate says, where the worker has one.
unfoldable pub allowed_types : WorkerConfig → (readiness : Option Bool) → List JobType
allowed_types config none = config.allowed_job_types
allowed_types config (some true) = config.allowed_job_types
allowed_types config (some false) =
    filter (λ job_type. not (requires_browser job_type)) config.allowed_job_types

module _ {Value : Type 0} (c : Clock) (service : JobServiceConfig) where
  -- The handler ends with `finish` after the events, unless a heartbeat fails before.
  unfoldable pub execute_with_heartbeats :
      JobLease Value
      → ℕ
      → List (Event Value)
      → JobExecution
      → Store Value
      → Store Value × Result WorkerError JobExecution
  execute_with_heartbeats lease now [] finish jobs = (jobs, ok finish)
  execute_with_heartbeats lease now (beat ∷ events) finish jobs =
      let r = heartbeat service c lease now jobs in
      let rest = execute_with_heartbeats lease now events finish r.0 in
      elim (r.1) [ ok _ ↦ rest | err e ↦ (r.0, err (heartbeat_error e)) ]
  execute_with_heartbeats lease now (elsewhere call ∷ events) finish jobs =
      execute_with_heartbeats lease now events finish (store_step c call jobs)

  -- `begin`, the outcome, and `commit`; a transaction that is left on an error is dropped.
  unfoldable pub in_transaction :
      JobLease Value → JobOutcomeKind → Store Value → Store Value × Result WorkerError (Job Value)
  in_transaction lease kind jobs =
      let r = apply_lease_outcome service lease kind (begin jobs) in
      elim (r.1) [ ok job ↦ (drop (commit r.0), ok job) | err e ↦ (drop r.0, err (job_error e)) ]

  -- The match of `apply_outcome`, and the branch of `run_once` for committed outcomes.
  unfoldable pub conclude :
      JobLease Value → ℕ → JobExecution → Store Value → Store Value × Result WorkerError (Job Value)
  unfolding in_transaction
  conclude lease now succeeded_execution jobs = in_transaction lease (succeeds now) jobs
  conclude lease now committed_execution jobs = elim (JobService.find service lease.job.id jobs) [
    | some job ↦ (jobs, ok job)
    | none ↦ (jobs, err (job_error (not_found lease.job.id)))
  ]
  conclude lease now (deferred_execution resume_at) jobs =
      in_transaction lease (defers now resume_at) jobs
  conclude lease now (retry_execution retry_at error) jobs =
      in_transaction lease (retries now retry_at error) jobs
  conclude lease now (failed_execution error) jobs = in_transaction lease (fails now error) jobs

  abbrev pub run_of :
      JobExecution
      → Store Value × Result WorkerError (Job Value)
      → Store Value × Result WorkerError (WorkerRun Value)
  run_of outcome (jobs, ok job) = (jobs, ok (completed job outcome))
  run_of outcome (jobs, err e) = (jobs, err e)

  -- The part of `run_once` after a claim.
  unfoldable pub work :
      JobLease Value
      → ℕ
      → List (Event Value)
      → JobExecution
      → Store Value
      → Store Value × Result WorkerError (WorkerRun Value)
  unfolding execute_with_heartbeats conclude
  work lease now events finish jobs =
      let r = execute_with_heartbeats lease now events finish jobs in
      elim (r.1) [
        | err e ↦ (r.0, err e)
        | ok outcome ↦ run_of outcome (conclude lease now outcome r.0)
      ]

  abbrev pub claimed_run :
      ℕ
      → List (Event Value)
      → JobExecution
      → Store Value × Result JobRepositoryError (Option (JobLease Value))
      → Store Value × Result WorkerError (WorkerRun Value)
  claimed_run now events finish (jobs, err e) = (jobs, err (job_error e))
  claimed_run now events finish (jobs, ok none) = (jobs, ok idle)
  claimed_run now events finish (jobs, ok (some lease)) = work lease now events finish jobs

  -- `none` is the panic of the recovery; `between` is what others do between the recovery and the
  -- claim; `handler` is `none` when the execution times out.
  unfoldable pub run_once :
      WorkerConfig
      → (readiness : Option Bool) → (token now : ℕ) → (message : Text)
      → (between : List (StoreCall Value)) → List (Event Value)
      → (handler : Option JobExecution) → Store Value
      → Option (Store Value × Result WorkerError (WorkerRun Value))
  unfolding work
  run_once config readiness token now message between events handler jobs =
      elim (recover_expired service now jobs) [
        | none ↦ none
        | some (after, recovered) ↦ some (
            claimed_run now events (finished now message handler) (
              claim_next service c token now (allowed_types config readiness)
                (store_run c between after)))
      ]
