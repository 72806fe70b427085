-- ===== src/Application/Worker/Safety.antt =====
-- A pass of a worker as a whole, src/application/worker.rs, and the well-formedness of the
-- job map.
use werrss.Common.{
  ℕ, ◌≡◌, refl, Bool, Option, none, some, List, [], ◌∷◌, Text, Result, ok, err, Option-cases,
  Result-cases, inl, inr, sym, subst,
}
use werrss.Domain.Job.{Job, Clock}
use werrss.Persistence.JobStore.{JobRepositoryError, Store, JobLease, outcome_in_store}
use werrss.Persistence.JobStore.Invariant.{WellFormed}
use werrss.Persistence.JobStore.History.{
  claims_next, renews, outcomes, IsFresh, StoreCall, AllFresh, store_step, store_step-WellFormed,
  store_run, store_run-WellFormed,
}
use werrss.Persistence.JobStore.Recovery.{recover_expired-Recovers}
use werrss.Application.JobService.{
  JobServiceConfig, JobOutcomeKind, heartbeat, claim_next, recover_expired, lease_outcome, find,
}
use werrss.Application.Worker.{
  JobExecution, committed_execution, WorkerConfig, WorkerError, WorkerRun, Event, beat, elsewhere,
  execute_with_heartbeats, finished, conclude, allowed_types, work, run_of, claimed_run, run_once,
}
use werrss.Application.Worker.Passes.{kind_of, settle, kind_none, conclude-settle, execute-finish}

module _ {Value : Type 0} (c : Clock) (service : JobServiceConfig) where
  -- New jobs of others come under identifiers not in use when they are enqueued.
  unfoldable pub EventsFresh : JobLease Value → ℕ → List (Event Value) → Store Value → Type 0
  EventsFresh lease now [] jobs = Unit {0}
  EventsFresh lease now (beat ∷ events) jobs =
      EventsFresh lease now events (heartbeat service c lease now jobs).0
  EventsFresh lease now (elsewhere call ∷ events) jobs =
      IsFresh call jobs × EventsFresh lease now events (store_step c call jobs)

  heartbeat-WellFormed :
      (lease : JobLease Value) (now : ℕ) (jobs : Store Value)
      → WellFormed jobs
      → WellFormed (heartbeat service c lease now jobs).0
  unfolding heartbeat store_step
  heartbeat-WellFormed lease now jobs w =
      store_step-WellFormed c (renews lease.job.id service.owner lease.token now service.lease_for)
        jobs tt w

  execute-WellFormed :
      (lease : JobLease Value) (now : ℕ) (events : List (Event Value)) (finish : JobExecution)
      (jobs : Store Value)
      → EventsFresh lease now events jobs
      → WellFormed jobs
      → WellFormed (execute_with_heartbeats c service lease now events finish jobs).0
  unfolding execute_with_heartbeats EventsFresh
  execute-WellFormed lease now [] finish jobs f w = w
  execute-WellFormed lease now (elsewhere call ∷ events) finish jobs f w =
      execute-WellFormed lease now events finish (store_step c call jobs) f.1
        (store_step-WellFormed c call jobs f.0 w)
  execute-WellFormed lease now (beat ∷ events) finish jobs f w =
      let next = heartbeat-WellFormed lease now jobs w in
      elim (Result-cases (heartbeat service c lease now jobs).1) [
        | inl (e, lost) ↦ rw (lost, execute_with_heartbeats) next
        | inr (j, kept) ↦
            rw (kept, execute_with_heartbeats)
              (execute-WellFormed lease now events finish (heartbeat service c lease now jobs).0 f
                next)
      ]

  outcome-WellFormed :
      (lease : JobLease Value) (kind : JobOutcomeKind) (jobs : Store Value)
      → WellFormed jobs
      → WellFormed
          (settle c service jobs (outcome_in_store (lease_outcome service lease kind) jobs)).0
  unfolding store_step
  outcome-WellFormed lease kind jobs w =
      let after = store_step-WellFormed c (outcomes (lease_outcome service lease kind)) jobs tt w in
      elim (Result-cases (outcome_in_store (lease_outcome service lease kind) jobs).1) [
        | inl (e, refused) ↦ rw refused w
        | inr (job, accepted) ↦ rw accepted after
      ]

  committed-conclude :
      (lease : JobLease Value) (now : ℕ) (jobs : Store Value)
      → (conclude c service lease now committed_execution jobs).0 ≡ jobs
  unfolding conclude
  committed-conclude lease now jobs = elim (Option-cases (find service lease.job.id jobs)) [
    | inl absent ↦ rw (absent, conclude) refl
    | inr (j, found) ↦ rw (found, conclude) refl
  ]

  conclude-WellFormed :
      (lease : JobLease Value) (now : ℕ) (outcome : JobExecution) (jobs : Store Value)
      → WellFormed jobs
      → WellFormed (conclude c service lease now outcome jobs).0
  conclude-WellFormed lease now outcome jobs w = elim (Option-cases (kind_of now outcome)) [
    | inl none_kept ↦ rw (kind_none now outcome none_kept, committed-conclude lease now jobs) w
    | inr (kind, k) ↦
        rw (conclude-settle c service lease now outcome kind jobs k)
          (outcome-WellFormed lease kind jobs w)
  ]

  run_of-store :
      (outcome : JobExecution) (r : Store Value × Result WorkerError (Job Value))
      → (run_of c service outcome r).0 ≡ r.0
  run_of-store outcome (jobs, ok job) = refl
  run_of-store outcome (jobs, err e) = refl

  work-WellFormed :
      (lease : JobLease Value) (now : ℕ) (events : List (Event Value)) (finish : JobExecution)
      (jobs : Store Value)
      → EventsFresh lease now events jobs
      → WellFormed jobs
      → WellFormed (work c service lease now events finish jobs).0
  unfolding work
  work-WellFormed lease now events finish jobs f w =
      let reached = execute_with_heartbeats c service lease now events finish jobs in
      let kept = execute-WellFormed lease now events finish jobs f w in
      elim (execute-finish c service lease now events finish jobs) [
        | inr (e, lost) ↦ rw (lost, work) kept
        | inl done ↦
            let next = conclude-WellFormed lease now finish reached.0 kept in
            rw (done, work)
              (subst WellFormed
                (sym (run_of-store finish (conclude c service lease now finish reached.0))) next)
      ]

  abbrev ClaimFresh :
      ℕ
      → List (Event Value)
      → Store Value × Result JobRepositoryError (Option (JobLease Value))
      → Type 0
  ClaimFresh now events (jobs, err e) = Unit {0}
  ClaimFresh now events (jobs, ok none) = Unit {0}
  ClaimFresh now events (jobs, ok (some lease)) = EventsFresh lease now events jobs

  claimed_run-WellFormed :
      (now : ℕ) (events : List (Event Value)) (finish : JobExecution)
      (claimed : Store Value × Result JobRepositoryError (Option (JobLease Value)))
      → ClaimFresh now events claimed
      → WellFormed claimed.0
      → WellFormed (claimed_run c service now events finish claimed).0
  claimed_run-WellFormed now events finish (jobs, err e) f w = w
  claimed_run-WellFormed now events finish (jobs, ok none) f w = w
  claimed_run-WellFormed now events finish (jobs, ok (some lease)) f w =
      work-WellFormed lease now events finish jobs f w

  -- The freshness of a pass, at the map that the recovery and the claim leave.
  abbrev pub PassFresh :
      WorkerConfig
      → Option Bool
      → (token now : ℕ) → (between : List (StoreCall Value)) → List (Event Value)
      → Option (Store Value × List (Job Value))
      → Type 0
  PassFresh config readiness token now between events none = Unit {0}
  PassFresh config readiness token now between events (some (after, recovered)) =
      AllFresh c between after
      × ClaimFresh now events (
          claim_next service c token now (allowed_types config readiness)
            (store_run c between after))

  -- A pass over a well-formed map, during which others enqueue only under identifiers not in use,
  -- never panics, and whatever happens in it, the map that it leaves is well formed.
  pub run_once-WellFormed :
      (config : WorkerConfig) (readiness : Option Bool) (token now : ℕ) (message : Text)
      (between : List (StoreCall Value)) (events : List (Event Value))
      (handler : Option JobExecution) (jobs : Store Value)
      → PassFresh config readiness token now between events (recover_expired service now jobs)
      → WellFormed jobs
      → (after : Store Value) × (result : Result WorkerError (WorkerRun Value)) × (run_once c
            service config readiness token now message between events handler jobs
          ≡ some (after, result))
        × WellFormed after
  unfolding run_once recover_expired claim_next store_step
  run_once-WellFormed config readiness token now message between events handler jobs f w =
      let (after, recovered, ran, entries, short, kept) =
        recover_expired-Recovers now service.recovery_batch_limit jobs w in
      let types = allowed_types config readiness in
      let reached = store_run c between after in
      let claimed = claim_next service c token now types reached in
      let fresh : AllFresh c between after × ClaimFresh now events claimed =
        subst (PassFresh config readiness token now between events) ran f in
      let kept' = store_run-WellFormed c between after fresh.0 kept in
      let w' : WellFormed claimed.0 =
        store_step-WellFormed c (claims_next token service.owner now service.lease_for types)
          reached tt kept' in
      let run = claimed_run c service now events (finished now message handler) claimed in
      (
        run.0,
        run.1,
        rw (ran, run_once) refl,
        claimed_run-WellFormed now events (finished now message handler) claimed fresh.1 w',
      )
