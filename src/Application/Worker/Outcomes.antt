-- ===== src/Application/Worker/Outcomes.antt =====
-- What the outcome of a pass writes, src/application/worker.rs.
use werrss.Common.{
  ℕ, ◌≡◌, ◌⊎◌, Option, none, some, Text, Result, ok, Option-cases, Result-cases, inl, inr, arith,
  ap, sym, ◌∙◌, subst,
}
use werrss.Domain.Job.{
  Job, JobStatus, JobError, Clock, succeeded, deferred, retry_wait, failed, defer, succeed, retry,
  fail,
}
use werrss.Persistence.JobStore.{
  Store, JobLease, lookup, insert, on_job, outcome_in_store, defer_in_store, succeed_in_store,
  retry_in_store, fail_in_store, job_of,
}
use werrss.Persistence.JobStore.Maps.{lookup-insert}
use werrss.Application.JobService.{
  JobServiceConfig, JobOutcomeKind, succeeds, defers, retries, fails, lease_outcome, find,
}
use werrss.Application.Worker.{JobExecution, committed_execution, conclude}
use werrss.Application.Worker.Passes.{kind_of, settle, kind_none, conclude-settle}

-- The status that an outcome brings a job to; a committed one is the handler's.
abbrev pub Reaches : Option JobOutcomeKind → JobStatus → Type 0
Reaches none s = Unit {0}
Reaches (some (succeeds now)) s = s ≡ succeeded
Reaches (some (defers now at)) s = s ≡ deferred
Reaches (some (retries now at error)) s = (s ≡ retry_wait) ⊎ (s ≡ failed)
Reaches (some (fails now error)) s = s ≡ failed

module _ {Value : Type 0} where
  on_job_written :
      {A : Type 0} (id : ℕ) (method : Job Value → Job Value × Result JobError A)
      (jobs after : Store Value) (job : Job Value)
      → (on_job id method jobs).0 ≡ after
      → job_of (on_job id method jobs).1 ≡ ok job
      → (j : Job Value) × (a : A) × (lookup id after ≡ some job)
        × ((method j).1 ≡ ok a)
        × ((method j).0 ≡ job)
  unfolding on_job
  on_job_written id method jobs after job h k = elim (Option-cases (lookup id jobs)) [
    | inl absent ↦ absurd (ground arith)
    | inr (j, found) ↦ elim (Result-cases (method j).1) [
      | inl (e, refused) ↦ absurd (ground arith)
      | inr (a, accepted) ↦
          let same : (method j).0 ≡ job = ground arith in
          let wrote : insert id (method j).0 jobs ≡ after = ground arith in
          (
            j,
            a,
            rw (← wrote) (lookup-insert id id (method j).0 jobs ∙ ground arith),
            accepted,
            same,
          )
    ]
  ]

  succeed_reaches :
      (owner : Text) (token now : ℕ) (j : Job Value) (a : Unit {0})
      → (succeed owner token now j).1 ≡ ok a
      → (succeed owner token now j).0.status ≡ succeeded
  unfolding succeed
  succeed_reaches owner token now j a h = ground arith

  defer_reaches :
      (owner : Text) (token now at : ℕ) (j : Job Value) (a : Unit {0})
      → (defer owner token now at j).1 ≡ ok a
      → (defer owner token now at j).0.status ≡ deferred
  unfolding defer
  defer_reaches owner token now at j a h = ground arith

  retry_reaches :
      (owner : Text) (token now at : ℕ) (error : Text) (j : Job Value) (a : JobStatus)
      → (retry owner token now at error j).1 ≡ ok a
      → ((retry owner token now at error j).0.status ≡ retry_wait)
        ⊎ ((retry owner token now at error j).0.status ≡ failed)
  unfolding retry
  retry_reaches owner token now at error j a h = ground arith

  fail_reaches :
      (owner : Text) (token now : ℕ) (error : Text) (j : Job Value) (a : Unit {0})
      → (fail owner token now error j).1 ≡ ok a
      → (fail owner token now error j).0.status ≡ failed
  unfolding fail
  fail_reaches owner token now error j a h = ground arith

  outcome_written :
      (service : JobServiceConfig) (lease : JobLease Value) (kind : JobOutcomeKind)
      (jobs after : Store Value) (job : Job Value)
      → outcome_in_store (lease_outcome service lease kind) jobs ≡ (after, ok job)
      → (lookup lease.job.id after ≡ some job) × Reaches (some kind) job.status
  unfolding outcome_in_store lease_outcome defer_in_store succeed_in_store retry_in_store
      fail_in_store
  outcome_written service lease (succeeds now) jobs after job h =
      let method = succeed service.owner lease.token now in
      let (j, a, here, good, same) =
        on_job_written lease.job.id method jobs after job (ap (λ r. r.0) h) (ap (λ r. r.1) h) in
      (here, rw (← same) (succeed_reaches service.owner lease.token now j a good))
  outcome_written service lease (defers now at) jobs after job h =
      let method = defer service.owner lease.token now at in
      let (j, a, here, good, same) =
        on_job_written lease.job.id method jobs after job (ap (λ r. r.0) h) (ap (λ r. r.1) h) in
      (here, rw (← same) (defer_reaches service.owner lease.token now at j a good))
  outcome_written service lease (retries now at error) jobs after job h =
      let method = retry service.owner lease.token now at error in
      let (j, a, here, good, same) =
        on_job_written lease.job.id method jobs after job (ap (λ r. r.0) h) (ap (λ r. r.1) h) in
      (here, rw (← same) (retry_reaches service.owner lease.token now at error j a good))
  outcome_written service lease (fails now error) jobs after job h =
      let method = fail service.owner lease.token now error in
      let (j, a, here, good, same) =
        on_job_written lease.job.id method jobs after job (ap (λ r. r.0) h) (ap (λ r. r.1) h) in
      (here, rw (← same) (fail_reaches service.owner lease.token now error j a good))

  settle_written :
      (c : Clock) (service : JobServiceConfig) (lease : JobLease Value) (kind : JobOutcomeKind)
      (jobs after : Store Value) (job : Job Value)
      → settle c service jobs (outcome_in_store (lease_outcome service lease kind) jobs)
        ≡ (after, ok job)
      → (lookup lease.job.id after ≡ some job) × Reaches (some kind) job.status
  settle_written c service lease kind jobs after job h =
      elim (Result-cases (outcome_in_store (lease_outcome service lease kind) jobs).1) [
        | inl (e, refused) ↦ absurd (ground arith)
        | inr (k, accepted) ↦ outcome_written service lease kind jobs after job (ground arith)
      ]

  committed_written :
      (c : Clock) (service : JobServiceConfig) (lease : JobLease Value) (now : ℕ)
      (jobs after : Store Value) (job : Job Value)
      → conclude c service lease now committed_execution jobs ≡ (after, ok job)
      → lookup lease.job.id after ≡ some job
  unfolding conclude find
  committed_written c service lease now jobs after job h =
      elim (Option-cases (lookup lease.job.id jobs)) [
        | inl absent ↦ absurd (ground arith)
        | inr (j, here) ↦ ground arith
      ]

  pub conclude_written :
      (c : Clock) (service : JobServiceConfig) (lease : JobLease Value) (now : ℕ)
      (outcome : JobExecution) (jobs after : Store Value) (job : Job Value)
      → conclude c service lease now outcome jobs ≡ (after, ok job)
      → (lookup lease.job.id after ≡ some job) × Reaches (kind_of now outcome) job.status
  conclude_written c service lease now outcome jobs after job h =
      elim (Option-cases (kind_of now outcome)) [
        | inl unpersisted ↦
            let same = kind_none now outcome unpersisted in
            (
              committed_written c service lease now jobs after job
                  (subst (λ o. conclude c service lease now o jobs ≡ (after, ok job)) same h),
              rw unpersisted tt,
            )
        | inr (kind, k) ↦
            let (here, reached) =
              settle_written c service lease kind jobs after job
                (sym (conclude-settle c service lease now outcome kind jobs k) ∙ h) in
            (here, rw k reached)
      ]
