-- ===== src/Tests/JobRuns.antt =====
-- Runs of the job state machine, src/domain/job.rs.
use werrss.Common.{
  ℕ, ◌+◌, ◌≤◌, ◌<◌, ◌≡◌, refl, ◌≢◌, ◌↔◌, ◌⊎◌, ℤ, pos, Bool, true, false, Option, none, some, List,
  [], ◌∷◌, All, Text, Result, ok, err, is_blank, trim, trim_start, if◌then◌else◌, ltb, arith,
}
use werrss.Domain.Job.{
  Job, JobStatus, queued, running, succeeded, lease_expired, u32_max, claim, succeed,
  from_persisted, validate_owner, lease_expiry,
}
use werrss.Domain.Job.History.{
  Call, claims, succeeds, retries, cancels, recovers, step, run, from_persisted-run,
}
use werrss.Domain.Job.Guards.{Allowed, step-accepted_iff}
use werrss.Domain.Job.Fencing.{run_stale, run_held}
use werrss.Domain.Job.Lifecycle.{Arrow, step-Arrow}
use werrss.Tests.Data.{
  test_clock, worker_a, worker_b, message, queued_job, leased_job, queued_job-IsValid,
  leased_job-IsValid,
}

-- A claim, a retry, the next worker's claim, and its lease running out.
abbrev busy_history : List Call
busy_history =
    claims 77 worker_a 15 (pos 25)
    ∷ retries worker_a 77 20 30 message
    ∷ claims 78 worker_b 31 (pos 10)
    ∷ recovers 50
    ∷ []

-- Calls of others while the token 77 is current.
abbrev intruders : List Call
intruders =
    claims 78 worker_b 20 (pos 10) ∷ succeeds worker_b 76 21 ∷ cancels 22 message ∷ recovers 39 ∷ []

busy_history_spends :
    ((run test_clock busy_history queued_job).failure_count ≡ 2)
    × ((run test_clock busy_history queued_job).status ≡ queued)
unfolding run step claim validate_owner is_blank trim trim_start
    werrss.Domain.Job.recover_expired_lease lease_expiry werrss.Domain.Job.retry
    werrss.Domain.Job.nonempty_error werrss.Domain.Job.ensure_live_owner werrss.Common.opt_text_eq
busy_history_spends = (refl, refl)

from_persisted-run_example :
    from_persisted (run test_clock busy_history queued_job)
    ≡ ok (run test_clock busy_history queued_job)
from_persisted-run_example =
    from_persisted-run test_clock busy_history queued_job (omega arith) queued_job-IsValid

step-accepted_iff_example :
    ((step test_clock (succeeds worker_a 77 20) leased_job).1 ≡ true)
    ↔ Allowed test_clock leased_job (succeeds worker_a 77 20)
step-accepted_iff_example =
    step-accepted_iff test_clock (succeeds worker_a 77 20) leased_job (omega arith)
      leased_job-IsValid

run_stale_example :
    (step test_clock (succeeds worker_a 76 20) (run test_clock intruders leased_job)).1 ≡ false
run_stale_example =
    run_stale test_clock 76 intruders (succeeds worker_a 76 20) leased_job (ground arith)
      (ground arith) refl

run_held_example : run test_clock intruders leased_job ≡ leased_job
run_held_example = run_held test_clock 77 40 intruders leased_job refl refl refl (ground arith)

step-Arrow_example :
    Arrow
      (claims 77 worker_a 15 (pos 25))
      queued
      (step test_clock (claims 77 worker_a 15 (pos 25)) queued_job).0.status
unfolding step claim validate_owner is_blank trim trim_start lease_expiry
step-Arrow_example = step-Arrow test_clock (claims 77 worker_a 15 (pos 25)) queued_job refl
