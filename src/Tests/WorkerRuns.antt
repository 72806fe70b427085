-- ===== src/Tests/WorkerRuns.antt =====
-- Passes of a worker, src/application/worker.rs.
use werrss.Common.{
  ℕ, ℤ, pos, ◌≡◌, refl, ◌≢◌, Option, none, some, List, [], ◌∷◌, Text, codes, Result, ok, err, Bool,
  true, false, arith,
}
use werrss.Domain.Job.{Job, JobType, source_sync, feed_rebuild}
use werrss.Persistence.JobStore.{Store, JobLease, lookup}
use werrss.Persistence.JobStore.Invariant.{WellFormed}
use werrss.Persistence.JobStore.History.{StoreCall, recovers_expired, claims_next}
use werrss.Application.JobService.{JobServiceConfig, recover_expired}
use werrss.Application.Worker.{
  JobExecution, succeeded_execution, committed_execution, WorkerConfig, WorkerError, WorkerRun,
  Event, beat, elsewhere, execute_with_heartbeats, work, run_once, allowed_types,
}
use werrss.Common.{negsuc, ◌<◌, ◌≢◌}
use werrss.Application.Worker.{new_with_execution_timeout, validate_for_lease}
use werrss.Application.Worker.Passes.{work_stale}
use werrss.Application.Worker.Safety.{run_once-WellFormed, PassFresh}
use werrss.Application.Worker.Reports.{Reports, run_once-Reports}
use werrss.Tests.Data.{test_clock, worker_a, worker_b, message, leased_job}
use werrss.Tests.Stores.{two_jobs, after_claim, two_jobs-WellFormed}

abbrev service : JobServiceConfig
service = record { owner = worker_a; lease_for = pos 25; recovery_batch_limit = 100 }

abbrev config : WorkerConfig
config = record {
  allowed_job_types = source_sync ∷ feed_rebuild ∷ [];
  heartbeat_every = 5;
  execution_timeout = 90;
}

abbrev the_lease : JobLease ℕ
the_lease = record { job = leased_job; token = 77 }

-- The lease runs out, another replica takes the job back and leases it.
abbrev others_before : List (StoreCall ℕ)
others_before = recovers_expired 12 10 ∷ []

abbrev taken_over : List (Event ℕ)
taken_over =
    elsewhere (recovers_expired 50 10)
    ∷ elsewhere (claims_next 78 worker_b 51 (pos 25) (source_sync ∷ []))
    ∷ []

abbrev taken_job : Job ℕ
taken_job = record leased_job {
  run_after = 50;
  claim_count = 2;
  failure_count = 1;
  lease_owner = some worker_b;
  lease_token = some 78;
  lease_until = some 76;
  heartbeat_at = some 51;
  last_error = some (codes "worker lease expired");
  updated_at = 51;
}

work_stale_example :
    (e : WorkerError) × (work test_clock service the_lease 15 taken_over succeeded_execution
        after_claim
      ≡ (
        (execute_with_heartbeats test_clock service the_lease 15 taken_over succeeded_execution
            after_claim).0,
        err e,
      ))
unfolding execute_with_heartbeats lookup werrss.Persistence.JobStore.History.store_step
    werrss.Persistence.JobStore.claim_next_in_store werrss.Persistence.JobStore.candidate
    werrss.Persistence.JobStore.recover_expired_in_store werrss.Persistence.JobStore.recover_each
    werrss.Persistence.JobStore.expired_candidates werrss.Persistence.JobStore.insert
    werrss.Persistence.JobStore.is_claimable werrss.Persistence.JobStore.contains
    werrss.Persistence.JobStore.on_job werrss.Persistence.JobStore.sort_by_key
    werrss.Persistence.JobStore.insert_by_key werrss.Persistence.JobStore.min_from
    werrss.Domain.Job.recover_expired_lease werrss.Domain.Job.claim werrss.Domain.Job.validate_owner
    werrss.Domain.Job.lease_expiry werrss.Common.filter werrss.Common.is_blank werrss.Common.trim
    werrss.Common.trim_start
work_stale_example =
    work_stale test_clock service the_lease 15 taken_over succeeded_execution after_claim taken_job
      (ground arith) refl (ground arith)

run_once-WellFormed_example :
    (after : Store ℕ) × (result : Result WorkerError (WorkerRun ℕ)) × (run_once test_clock service
        config
        (some true)
        77
        15
        message
        others_before
        (beat ∷ taken_over)
        (some succeeded_execution)
        two_jobs
      ≡ some (after, result))
    × WellFormed after
unfolding werrss.Application.JobService.recover_expired werrss.Application.JobService.claim_next
    werrss.Application.JobService.heartbeat werrss.Application.Worker.allowed_types
    werrss.Application.Worker.Safety.EventsFresh lookup
    werrss.Persistence.JobStore.claim_next_in_store werrss.Persistence.JobStore.claim_order
    werrss.Persistence.JobStore.candidate werrss.Persistence.JobStore.recover_expired_in_store
    werrss.Persistence.JobStore.recover_each werrss.Persistence.JobStore.expired_candidates
    werrss.Persistence.JobStore.insert werrss.Persistence.JobStore.is_claimable
    werrss.Persistence.JobStore.contains werrss.Persistence.JobStore.on_job
    werrss.Persistence.JobStore.sort_by_key werrss.Persistence.JobStore.insert_by_key
    werrss.Persistence.JobStore.min_from werrss.Domain.Job.recover_expired_lease
    werrss.Domain.Job.claim werrss.Domain.Job.validate_owner werrss.Domain.Job.lease_expiry
    werrss.Common.filter werrss.Common.is_blank werrss.Common.trim werrss.Common.trim_start
    werrss.Persistence.JobStore.History.AllFresh werrss.Persistence.JobStore.History.store_run
    werrss.Persistence.JobStore.History.store_step
run_once-WellFormed_example =
    run_once-WellFormed test_clock service config (some true) 77 15 message others_before
      (beat ∷ taken_over) (some succeeded_execution) two_jobs ((tt, tt), (tt, (tt, tt)))
      two_jobs-WellFormed

run_once-Reports_example :
    (result : Store ℕ × Result WorkerError (WorkerRun ℕ)) × (run_once test_clock service config
        (some false)
        77
        15
        message
        others_before
        (beat ∷ [])
        (some succeeded_execution)
        two_jobs
      ≡ some result)
    × Reports 15 (allowed_types config (some false)) result
unfolding recover_expired werrss.Persistence.JobStore.recover_expired_in_store
    werrss.Persistence.JobStore.recover_each werrss.Persistence.JobStore.expired_candidates
    werrss.Persistence.JobStore.History.AllFresh
run_once-Reports_example =
    run_once-Reports test_clock service config (some false) 77 15 message others_before (beat ∷ [])
      (some succeeded_execution) two_jobs (tt, tt) two_jobs-WellFormed

-- Durations of no sign.
abbrev to_std : ℤ → Option ℕ
to_std (pos n) = some n
to_std (negsuc n) = none
