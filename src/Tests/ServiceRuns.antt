-- ===== src/Tests/ServiceRuns.antt =====
-- Runs of the job service, src/application/job_service.rs.
use werrss.Common.{
  ℕ, ◌+◌, ◌*◌, ◌/◌, ◌≤◌, ◌<◌, ◌≡◌, refl, ◌≢◌, ◌↔◌, ◌⊎◌, inl, inr, ℤ, pos, negsuc, is_positive, Bool,
  true, false, Option, none, some, List, [], ◌∷◌, All, Text, Result, ok, err, is_ok, is_blank, trim,
  trim_start, codes, if◌then◌else◌, ltb, leb, arith,
}
use werrss.Domain.Job.{JobStatus, source_sync, validate_owner, succeeded, lease_expiry, Job}
use werrss.Persistence.JobStore.{Store, JobLease, begin, commit, drop}
use werrss.Persistence.JobStore.Invariant.{WellFormed}
use werrss.Application.JobService.{JobServiceConfig, claim_next, apply_lease_outcome, succeeds}
use werrss.Application.JobService.Cycle.{claim_next-succeed, status_at, committed_by}
use werrss.Tests.Data.{
  test_clock, test_clock-IsExact, worker_a, queued_job, leased_job, queued_job-IsValid,
}

abbrev service_config : JobServiceConfig
service_config = record { owner = worker_a; lease_for = pos 25; recovery_batch_limit = 100 }

abbrev one_job : Store ℕ
one_job = (1, queued_job) ∷ []

one_job-WellFormed : WellFormed one_job
one_job-WellFormed =
    (record { named = refl; valid = queued_job-IsValid; limit = omega arith }, tt, tt)

abbrev one_leased : Store ℕ
one_leased = (1, leased_job) ∷ []

abbrev the_lease : JobLease ℕ
the_lease = record { job = leased_job; token = 77 }

claim_next-succeed_example :
    let call = apply_lease_outcome service_config the_lease (succeeds 39) in
    (is_ok (call (begin one_leased)).1 ≡ true)
    × (status_at 1 (committed_by call one_leased) ≡ some succeeded)
unfolding claim_next werrss.Persistence.JobStore.claim_next_in_store
    werrss.Persistence.JobStore.candidate werrss.Common.filter
    werrss.Persistence.JobStore.is_claimable werrss.Persistence.JobStore.contains
    werrss.Persistence.JobStore.on_job werrss.Persistence.JobStore.lookup
    werrss.Persistence.JobStore.insert werrss.Domain.Job.claim validate_owner is_blank lease_expiry
claim_next-succeed_example =
    claim_next-succeed service_config test_clock 77 15 25 39 (source_sync ∷ []) one_job one_leased
      the_lease test_clock-IsExact one_job-WellFormed refl refl
