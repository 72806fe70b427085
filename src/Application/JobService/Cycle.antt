-- ===== src/Application/JobService/Cycle.antt =====
-- A job's way through the service, src/application/job_service.rs: claimed, worked on, and brought to
-- an outcome in a transaction of the repository.
use werrss.Common.{
  ℕ, ◌+◌, ◌≤◌, ℤ, pos, is_positive, ◌≡◌, refl, true, false, Option, none, some, List, Text, trim,
  trim-trim, is_blank, is_blank-trim, is_ok, Method, ok, err, arith, subst, sym, ap, ◌∙◌, ltb,
  if◌then◌else◌,
}
use werrss.Domain.Job.{
  Job, JobType, JobStatus, succeeded, Clock, IsExact, lease_expired, validate_owner, succeed, claim,
  running,
}
use werrss.Domain.Job.Lifecycle.{claim-succeed}
use werrss.Persistence.JobStore.{
  JobRepositoryError, Store, JobLease, Transaction, begin, commit, drop, lookup, on_jobs,
  outcome_in_store, apply_outcome, succeed_in_store, on_job,
}
use werrss.Persistence.JobStore.Invariant.{WellFormed}
use werrss.Persistence.JobStore.Claiming.{claimed_job}
use werrss.Persistence.JobStore.Maps.{lookup-insert}
use werrss.Application.JobService.{
  JobServiceConfig, new_config, succeeds, claim_next, apply_lease_outcome,
}

-- A configuration that `JobServiceConfig::new` accepts has the trimmed owner, which every claim and
-- every lease check accept as an owner, a positive lease, and a batch of at most 1000.
pub new_config-accepts :
    (num_milliseconds : ℤ → ℤ) (given : Text) (lease_for : ℤ) (limit : ℕ)
    (config : JobServiceConfig)
    → new_config num_milliseconds given lease_for limit ≡ ok config
    → (config.owner ≡ trim given)
      × (trim config.owner ≡ config.owner)
      × (validate_owner config.owner ≡ ok tt)
      × (is_positive config.lease_for ≡ true)
      × (is_positive (num_milliseconds config.lease_for) ≡ true)
      × (config.recovery_batch_limit ≤ 1000)
unfolding new_config validate_owner
new_config-accepts num_milliseconds given lease_for limit config h =
    let named : config.owner ≡ trim given = ground arith in
    let same : trim config.owner ≡ config.owner = rw named (trim-trim given) in
    let filled : is_blank config.owner ≡ false = rw (named, is_blank-trim given) (ground arith) in
    (named, same, rw filled refl, ground arith, ground arith, ground arith)

module _ {Value : Type 0} where
  -- The status of the job at an id.
  abbrev pub status_at : ℕ → Store Value → Option JobStatus
  status_at id jobs = elim (lookup id jobs) [ none ↦ none | some j ↦ some j.status ]

  -- What success says at `later` of a job whose lease ends at `until`.
  abbrev SucceedsBefore : Text → ℕ → ℕ → ℕ → Job Value → Type 0
  SucceedsBefore owner token later until k =
      ((succeed owner token later k).1 ≡ (if ltb later until then ok tt else err lease_expired))
      × ((succeed owner token later k).0.status ≡ (if ltb later until then succeeded else running))

  succeed_at :
      (owner : Text) (token later until id : ℕ) (jobs : Store Value) (j : Job Value)
      → lookup id jobs ≡ some j
      → SucceedsBefore owner token later until j
      → let r = succeed_in_store id owner token later jobs in
        (is_ok r.1 ≡ ltb later until)
        × (status_at id r.0 ≡ some (if ltb later until then succeeded else running))
  unfolding succeed_in_store on_job
  succeed_at owner token later until id jobs j here h =
      ground (arith, lookup-insert id id (succeed owner token later j).0 jobs)

  -- The map after a service call in a transaction that commits.
  abbrev pub committed_by :
      Method (Transaction Value) JobRepositoryError (Job Value) → Store Value → Store Value
  committed_by call jobs = drop (commit (call (begin jobs)).0)

  abbrev Applies : JobServiceConfig → JobLease Value → ℕ → Store Value → ℕ → Type 0
  Applies config lease later jobs token =
      let r = succeed_in_store lease.job.id config.owner token later jobs in
      let call = apply_lease_outcome config lease (succeeds later) in
      ((call (begin jobs)).1 ≡ r.1) × (committed_by call jobs ≡ r.0)

  apply_succeeds :
      (config : JobServiceConfig) (lease : JobLease Value) (later : ℕ) (jobs : Store Value)
      → Applies config lease later jobs lease.token
  unfolding apply_lease_outcome apply_outcome on_jobs outcome_in_store begin commit drop
  apply_succeeds config lease later jobs = (refl, refl)

  -- With a clock that adds exactly and a well-formed job map: a job that `claim_next` leases for
  -- `n` nanoseconds at `now` can be reported as succeeded by the same service at exactly the
  -- instants before `now + n`. The map that the committed transaction leaves then holds it as
  -- succeeded, and as running after a refusal.
  pub claim_next-succeed :
      (config : JobServiceConfig) (c : Clock) (token now n later : ℕ) (allowed : List JobType)
      (jobs after : Store Value) (lease : JobLease Value)
      → IsExact c
      → WellFormed jobs
      → config.lease_for ≡ pos n
      → claim_next config c token now allowed jobs ≡ (after, ok (some lease))
      → let call = apply_lease_outcome config lease (succeeds later) in
        (is_ok (call (begin after)).1 ≡ ltb later (now + n))
        × (status_at lease.job.id (committed_by call after)
            ≡ some (if ltb later (now + n) then succeeded else running))
  unfolding claim_next
  claim_next-succeed config c token now n later allowed jobs after lease e w d h =
      let (j, l, q, here, runs, made, taken, fence) =
        claimed_job c token config.owner now config.lease_for allowed jobs after lease w h in
      let made' : lease.job ≡ (claim c token config.owner now (pos n) j).0 = rw (← d) made in
      let held : SucceedsBefore config.owner token later (now + n) lease.job =
        subst (SucceedsBefore config.owner token later (now + n)) (sym made')
          (claim-succeed c token config.owner now n later j e (rw (← d) taken)) in
      let (answer, map) =
        subst (Applies config lease later after) fence (apply_succeeds config lease later after) in
      let (good, state) =
        succeed_at config.owner token later (now + n) lease.job.id after lease.job here held in
      (ap is_ok answer ∙ good, rw map state)
