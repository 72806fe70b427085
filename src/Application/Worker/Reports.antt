-- ===== src/Application/Worker/Reports.antt =====
-- What a pass of a worker reports, src/application/worker.rs.
use werrss.Common.{
  ℕ, ◌≡◌, refl, Bool, false, Option, none, some, List, Text, Result, ok, err, Option-cases,
  Result-cases, inl, inr, arith, subst, All,
}
use werrss.Domain.Job.{Job, JobType, Clock, claim}
use werrss.Persistence.JobStore.{
  JobRepositoryError, Store, JobLease, lookup, on_job, claim_next_in_store, candidate, is_claimable,
}
use werrss.Persistence.JobStore.Invariant.{WellFormed}
use werrss.Persistence.JobStore.History.{StoreCall, AllFresh, store_run, store_run-WellFormed}
use werrss.Persistence.JobStore.Selection.{Selects, candidate-Selects}
use werrss.Persistence.JobStore.Recovery.{recover_expired-Recovers}
use werrss.Application.JobService.{JobServiceConfig, claim_next, recover_expired}
use werrss.Application.Worker.{
  JobExecution, WorkerConfig, WorkerError, WorkerRun, idle, completed, Event,
  execute_with_heartbeats, finished, conclude, allowed_types, work, run_of, claimed_run, run_once,
}
use werrss.Application.Worker.Passes.{kind_of, execute-finish}
use werrss.Application.Worker.Outcomes.{Reaches, conclude_written}

module _ {Value : Type 0} where
  -- What the result of a pass says of the map that the pass leaves.
  abbrev pub Reports :
      ℕ → List JobType → Store Value × Result WorkerError (WorkerRun Value) → Type 0
  Reports now types (after, err e) = Unit {0}
  Reports now types (after, ok idle) = All (λ e. is_claimable now types e.1 ≡ false) after
  Reports now types (after, ok (completed job outcome)) =
      (id : ℕ) × (lookup id after ≡ some job) × Reaches (kind_of now outcome) job.status

  run_of-Reports :
      (c : Clock) (service : JobServiceConfig) (lease : JobLease Value) (now : ℕ)
      (types : List JobType) (outcome : JobExecution)
      (r : Store Value × Result WorkerError (Job Value))
      → ((after : Store Value) (job : Job Value)
          → r ≡ (after, ok job)
          → (lookup lease.job.id after ≡ some job) × Reaches (kind_of now outcome) job.status)
      → Reports now types (run_of c service outcome r)
  run_of-Reports c service lease now types outcome (after, err e) f = tt
  run_of-Reports c service lease now types outcome (after, ok job) f =
      let (here, reached) = f after job refl in (lease.job.id, here, reached)

  work-Reports :
      (c : Clock) (service : JobServiceConfig) (lease : JobLease Value) (now : ℕ)
      (types : List JobType) (events : List (Event Value)) (finish : JobExecution)
      (jobs : Store Value)
      → Reports now types (work c service lease now events finish jobs)
  unfolding work
  work-Reports c service lease now types events finish jobs =
      let reached = execute_with_heartbeats c service lease now events finish jobs in
      elim (execute-finish c service lease now events finish jobs) [
        | inr (e, lost) ↦ rw (lost, work) tt
        | inl done ↦
            rw (done, work)
              (run_of-Reports c service lease now types finish
                (conclude c service lease now finish reached.0)
                (conclude_written c service lease now finish reached.0))
      ]

  claim_next_idle :
      (c : Clock) (service : JobServiceConfig) (token now : ℕ) (types : List JobType)
      (jobs after : Store Value)
      → WellFormed jobs
      → claim_next service c token now types jobs ≡ (after, ok none)
      → All (λ e. is_claimable now types e.1 ≡ false) after
  unfolding claim_next claim_next_in_store on_job
  claim_next_idle c service token now types jobs after w h =
      elim (Option-cases (candidate now types jobs)) [
        | inl absent ↦
            let all = subst (Selects now types jobs) absent (candidate-Selects now types jobs w) in
            let same : jobs ≡ after = ground arith in
            subst (All (λ e. is_claimable now types e.1 ≡ false)) same all
        | inr ((id, j), picked) ↦
            let (here, good, least) =
              subst (Selects now types jobs) picked (candidate-Selects now types jobs w) in
            elim (Result-cases (claim c token service.owner now service.lease_for j).1) [
              | inl (e, refused) ↦ absurd (ground arith)
              | inr (t, accepted) ↦ absurd (ground arith)
            ]
      ]

  claimed_run-Reports :
      (c : Clock) (service : JobServiceConfig) (now : ℕ) (types : List JobType)
      (events : List (Event Value)) (finish : JobExecution)
      (claimed : Store Value × Result JobRepositoryError (Option (JobLease Value)))
      → ((after : Store Value)
          → claimed ≡ (after, ok none)
          → All (λ e. is_claimable now types e.1 ≡ false) after)
      → Reports now types (claimed_run c service now events finish claimed)
  claimed_run-Reports c service now types events finish (jobs, err e) f = tt
  claimed_run-Reports c service now types events finish (jobs, ok none) f = f jobs refl
  claimed_run-Reports c service now types events finish (jobs, ok (some lease)) f =
      work-Reports c service lease now types events finish jobs

  -- Others enqueue between the recovery and the claim only under identifiers not in use.
  abbrev pub BetweenFresh :
      Clock → List (StoreCall Value) → Option (Store Value × List (Job Value)) → Type 0
  BetweenFresh c between none = Unit {0}
  BetweenFresh c between (some (after, recovered)) = AllFresh c between after

  -- A pass over a well-formed map, before whose claim others enqueue only under identifiers not in
  -- use, gives a result. If it is idle, no job of the allowed types is
  -- claimable in the map that it leaves; if it completed a job, the map holds the job as reported,
  -- with the status of the outcome, whether the handler ended or ran out of time.
  pub run_once-Reports :
      (c : Clock) (service : JobServiceConfig) (config : WorkerConfig) (readiness : Option Bool)
      (token now : ℕ) (message : Text) (between : List (StoreCall Value))
      (events : List (Event Value)) (handler : Option JobExecution) (jobs : Store Value)
      → BetweenFresh c between (recover_expired service now jobs)
      → WellFormed jobs
      → (result : Store Value × Result WorkerError (WorkerRun Value)) × (run_once c service config
            readiness token now message between events handler jobs
          ≡ some result)
        × Reports now (allowed_types config readiness) result
  unfolding run_once recover_expired
  run_once-Reports c service config readiness token now message between events handler jobs f w =
      let (after, recovered, ran, entries, short, kept) =
        recover_expired-Recovers now service.recovery_batch_limit jobs w in
      let types = allowed_types config readiness in
      let fresh = subst (BetweenFresh c between) ran f in
      let reached = store_run c between after in
      let kept' = store_run-WellFormed c between after fresh kept in
      let claimed = claim_next service c token now types reached in
      (
        claimed_run c service now events (finished now message handler) claimed,
        rw (ran, run_once) refl,
        claimed_run-Reports c service now types events (finished now message handler) claimed
            (λ final h. claim_next_idle c service token now types reached final kept' h),
      )
