-- ===== src/Application/Worker/Passes.antt =====
-- What a pass of a worker leaves behind, src/application/worker.rs.
use werrss.Common.{
  ℕ, ◌≡◌, refl, ◌≢◌, ◌⊎◌, false, Option, none, some, List, [], ◌∷◌, Result, ok, err, is_ok,
  Option-cases, Result-cases, inl, inr, arith,
}
use werrss.Domain.Job.{Job, JobError, Clock, defer, succeed, retry, fail}
use werrss.Domain.Job.History.{
  defers as defers_call, succeeds as succeeds_call, retries as retries_call, fails as fails_call,
  step,
}
use werrss.Domain.Job.Fencing.{presented-refused}
use werrss.Persistence.JobStore.{
  JobRepositoryError, Store, JobLease, begin, commit, drop, lookup, on_jobs, on_job, apply_outcome,
  outcome_in_store, defer_in_store, succeed_in_store, retry_in_store, fail_in_store,
}
use werrss.Persistence.JobStore.History.{store_step}
use werrss.Application.JobService.{
  JobServiceConfig, JobOutcomeKind, succeeds, defers, retries, fails, heartbeat, lease_outcome,
  apply_lease_outcome,
}
use werrss.Application.Worker.{
  JobExecution, succeeded_execution, committed_execution, deferred_execution, retry_execution,
  failed_execution, WorkerError, job_error, heartbeat_error, Event, beat, elsewhere,
  execute_with_heartbeats, in_transaction, conclude, work,
}

-- The kind of outcome that the worker persists for an execution.
abbrev pub kind_of : ℕ → JobExecution → Option JobOutcomeKind
kind_of now succeeded_execution = some (succeeds now)
kind_of now committed_execution = none
kind_of now (deferred_execution resume_at) = some (defers now resume_at)
kind_of now (retry_execution retry_at error) = some (retries now retry_at error)
kind_of now (failed_execution error) = some (fails now error)

pub kind_none : (now : ℕ) (o : JobExecution) → kind_of now o ≡ none → o ≡ committed_execution
kind_none now committed_execution h = refl
kind_none now succeeded_execution h = absurd (cc)
kind_none now (deferred_execution at) h = absurd (cc)
kind_none now (retry_execution at error) h = absurd (cc)
kind_none now (failed_execution error) h = absurd (cc)

module _ {Value : Type 0} (c : Clock) (service : JobServiceConfig) where
  abbrev pub settle :
      Store Value
      → Store Value × Result JobRepositoryError (Job Value)
      → Store Value × Result WorkerError (Job Value)
  settle jobs (after, ok job) = (after, ok job)
  settle jobs (after, err e) = (jobs, err (job_error e))

  pub in_transaction-settle :
      (lease : JobLease Value) (kind : JobOutcomeKind) (jobs : Store Value)
      → in_transaction c service lease kind jobs
        ≡ settle jobs (outcome_in_store (lease_outcome service lease kind) jobs)
  unfolding in_transaction apply_lease_outcome apply_outcome on_jobs begin commit drop
  in_transaction-settle lease kind jobs =
      elim (Result-cases (outcome_in_store (lease_outcome service lease kind) jobs).1) [
        | inl (e, refused) ↦ ground arith
        | inr (job, accepted) ↦ ground arith
      ]

  pub conclude-settle :
      (lease : JobLease Value) (now : ℕ) (outcome : JobExecution) (kind : JobOutcomeKind)
      (jobs : Store Value)
      → kind_of now outcome ≡ some kind
      → conclude c service lease now outcome jobs
        ≡ settle jobs (outcome_in_store (lease_outcome service lease kind) jobs)
  unfolding conclude
  conclude-settle lease now succeeded_execution kind jobs h =
      let same : succeeds now ≡ kind = ground arith in
      rw (← same) (in_transaction-settle lease (succeeds now) jobs)
  conclude-settle lease now committed_execution kind jobs h = absurd (cc)
  conclude-settle lease now (deferred_execution at) kind jobs h =
      let same : defers now at ≡ kind = ground arith in
      rw (← same) (in_transaction-settle lease (defers now at) jobs)
  conclude-settle lease now (retry_execution at error) kind jobs h =
      let same : retries now at error ≡ kind = ground arith in
      rw (← same) (in_transaction-settle lease (retries now at error) jobs)
  conclude-settle lease now (failed_execution error) kind jobs h =
      let same : fails now error ≡ kind = ground arith in
      rw (← same) (in_transaction-settle lease (fails now error) jobs)

  -- A method that refuses its job, run on the map.
  on_job_refused :
      {A : Type 0} (id : ℕ) (method : Job Value → Job Value × Result JobError A)
      (jobs : Store Value) (j : Job Value)
      → lookup id jobs ≡ some j
      → is_ok (method j).1 ≡ false
      → is_ok (on_job id method jobs).1 ≡ false
  unfolding on_job
  on_job_refused id method jobs j here h = ground arith

  stale_outcome :
      (lease : JobLease Value) (kind : JobOutcomeKind) (jobs : Store Value) (j : Job Value)
      → lookup lease.job.id jobs ≡ some j
      → j.lease_token ≢ some lease.token
      → is_ok (outcome_in_store (lease_outcome service lease kind) jobs).1 ≡ false
  unfolding outcome_in_store lease_outcome defer_in_store succeed_in_store retry_in_store
      fail_in_store step
  stale_outcome lease (succeeds now) jobs j here h = ground (
    arith,
    on_job_refused lease.job.id (succeed service.owner lease.token now) jobs j here
        (presented-refused c lease.token (succeeds_call service.owner lease.token now) j h refl),
  )
  stale_outcome lease (defers now at) jobs j here h = ground (
    arith,
    on_job_refused lease.job.id (defer service.owner lease.token now at) jobs j here
        (presented-refused c lease.token (defers_call service.owner lease.token now at) j h refl),
  )
  stale_outcome lease (retries now at error) jobs j here h = ground (
    arith,
    on_job_refused lease.job.id (retry service.owner lease.token now at error) jobs j here (
        presented-refused c lease.token (retries_call service.owner lease.token now at error) j h
          refl),
  )
  stale_outcome lease (fails now error) jobs j here h = ground (
    arith,
    on_job_refused lease.job.id (fail service.owner lease.token now error) jobs j here
        (presented-refused c lease.token (fails_call service.owner lease.token now error) j h refl),
  )

  pub execute-finish :
      (lease : JobLease Value) (now : ℕ) (events : List (Event Value)) (finish : JobExecution)
      (jobs : Store Value)
      → (execute_with_heartbeats c service lease now events finish jobs).1 ≡ ok finish
        ⊎ ((e : WorkerError) × ((execute_with_heartbeats c service lease now events finish jobs).1
              ≡ err e))
  unfolding execute_with_heartbeats
  execute-finish lease now [] finish jobs = inl refl
  execute-finish lease now (beat ∷ events) finish jobs =
      elim (Result-cases (heartbeat service c lease now jobs).1) [
        | inl (e, lost) ↦ inr (heartbeat_error e, rw (lost, execute_with_heartbeats) refl)
        | inr (j, kept) ↦
            rw (kept, execute_with_heartbeats)
              (execute-finish lease now events finish (heartbeat service c lease now jobs).0)
      ]
  execute-finish lease now (elsewhere call ∷ events) finish jobs =
      execute-finish lease now events finish (store_step c call jobs)

  -- A worker whose lease is gone changes nothing at the end of its pass: if the job has another
  -- token, or none, once the handler is done or a heartbeat failed, and the handler's outcome is not
  -- one that it committed itself, the pass fails, and the map is left as it stood then.
  pub work_stale :
      (lease : JobLease Value) (now : ℕ) (events : List (Event Value)) (finish : JobExecution)
      (jobs : Store Value) (j : Job Value)
      → finish ≢ committed_execution
      → lookup lease.job.id (execute_with_heartbeats c service lease now events finish jobs).0
        ≡ some j
      → j.lease_token ≢ some lease.token
      → (e : WorkerError) × (work c service lease now events finish jobs
          ≡ ((execute_with_heartbeats c service lease now events finish jobs).0, err e))
  unfolding work
  work_stale lease now events finish jobs j n here stale =
      let reached = execute_with_heartbeats c service lease now events finish jobs in
      elim (execute-finish lease now events finish jobs) [
        | inr (e, lost) ↦ (e, rw (lost, work) refl)
        | inl done ↦ elim (Option-cases (kind_of now finish)) [
          | inl unpersisted ↦ absurd (n (kind_none now finish unpersisted))
          | inr (kind, k) ↦
              elim (Result-cases
                (outcome_in_store (lease_outcome service lease kind) reached.0).1) [
                  | inr (job, accepted) ↦
                      absurd (ground (arith, stale_outcome lease kind reached.0 j here stale))
                  | inl (e, refused) ↦ (
                    job_error e,
                    rw (done, work)
                        (rw (conclude-settle lease now finish kind reached.0 k) (ground arith)),
                  )
                ]
        ]
      ]
