-- ===== src/Tests/StoreRuns.antt =====
-- Runs of the in-memory job repository, src/persistence/repositories/job_repository.rs.
use werrss.Common.{
  ℕ, ◌+◌, ◌<◌, ◌≡◌, refl, ◌≢◌, ◌⊎◌, ℤ, pos, Bool, true, false, Option, none, some, List, [], ◌∷◌,
  ◌++◌, All, Text, Result, ok, err, is_blank, trim, trim_start, if◌then◌else◌, arith, codes, drop,
}
use werrss.Domain.Job.{
  Job, JobType, source_sync, feed_rebuild, succeeded, lease_expiry, u32_max, claim,
}
use werrss.Persistence.JobStore.{
  lookup, insert, JobOutcome, succeeded_outcome, retry_outcome, JobLease, EnqueueResult, begin,
  commit, drop as discard, claim_next_in_store, is_claimable, expired_at, candidate,
}
use werrss.Persistence.JobStore.Invariant.{WellFormed}
use werrss.Persistence.JobStore.History.{
  StoreCall, enqueues, claims_next, outcomes, recovers_expired, AllFresh, store_run,
  store_run-WellFormed,
}
use werrss.Persistence.JobStore.Rollback.{tx_run, transaction_atomic}
use werrss.Persistence.JobStore.Selection.{NotAfter}
use werrss.Persistence.JobStore.Claiming.{Leased, claim_next-first, claim_next_twice}
use werrss.Tests.Stores.{two_jobs, after_claim, two_jobs-WellFormed}
use werrss.Tests.Data.{
  test_clock, worker_a, worker_b, message, new_job, queued_job, other_job, leased_job,
}

-- A duplicate enqueue, a claim, a failure that is retried, and a recovery.
abbrev day : List (StoreCall ℕ)
day =
    enqueues 3 new_job
    ∷ claims_next 77 worker_a 15 (pos 25) (source_sync ∷ [])
    ∷ outcomes (retry_outcome 1 worker_a 77 20 30 message)
    ∷ recovers_expired 50 10
    ∷ []

store_run-WellFormed_example : WellFormed (store_run test_clock day two_jobs)
unfolding AllFresh lookup
store_run-WellFormed_example =
    store_run-WellFormed test_clock day two_jobs ((refl, omega arith), (tt, (tt, (tt, tt))))
      two_jobs-WellFormed

transaction_atomic_example :
    (discard (tx_run test_clock day (begin two_jobs)) ≡ two_jobs)
    × (discard (commit (tx_run test_clock day (begin two_jobs)))
        ≡ store_run test_clock day two_jobs)
transaction_atomic_example = transaction_atomic test_clock day two_jobs

claim_next-first_example :
    let allowed = source_sync ∷ feed_rebuild ∷ [] in
    let result = claim_next_in_store test_clock 77 worker_a 15 (pos 25) allowed two_jobs in
    (All (λ e. is_claimable 15 allowed e.1 ≡ false) two_jobs × (result ≡ (two_jobs, ok none)))
    ⊎ ((id : ℕ) × (j : Job ℕ) × (k : Job ℕ) × (lookup id two_jobs ≡ some j)
        × (is_claimable 15 allowed j ≡ true)
        × All (λ e. is_claimable 15 allowed e.1 ≡ true → NotAfter j e.1) two_jobs
        × Leased 77 worker_a 40 id two_jobs k result)
unfolding is_blank trim trim_start lease_expiry
claim_next-first_example =
    claim_next-first test_clock 77 worker_a 15 (pos 25) 40 (source_sync ∷ feed_rebuild ∷ [])
      two_jobs two_jobs-WellFormed refl refl (ground arith)

abbrev first_lease : JobLease ℕ
first_lease = record { job = leased_job; token = 77 }

abbrev second_job : Job ℕ
second_job = record other_job {
  status = leased_job.status;
  claim_count = 1;
  lease_owner = some worker_b;
  lease_token = some 78;
  lease_until = some 30;
  heartbeat_at = some 20;
  started_at = some 20;
  updated_at = 20;
}

claim_next_twice_example : first_lease.job.id ≢ second_job.id
unfolding claim_next_in_store candidate werrss.Common.filter is_claimable
    werrss.Persistence.JobStore.contains werrss.Persistence.JobStore.on_job lookup
    werrss.Persistence.JobStore.claim_order insert claim werrss.Domain.Job.validate_owner is_blank
    lease_expiry
claim_next_twice_example =
    claim_next_twice test_clock 77 78 worker_a worker_b 15 20 (pos 25) (pos 10)
      (source_sync ∷ feed_rebuild ∷ []) (source_sync ∷ feed_rebuild ∷ []) two_jobs after_claim
      ((1, leased_job) ∷ (2, second_job) ∷ []) first_lease (record { job = second_job; token = 78 })
      two_jobs-WellFormed refl refl

-- The first job after the recovery.
abbrev requeued_job : Job ℕ
requeued_job = record queued_job {
  run_after = 50;
  claim_count = 1;
  failure_count = 1;
  heartbeat_at = some 15;
  started_at = some 15;
  last_error = some (codes "worker lease expired");
  updated_at = 50;
}
