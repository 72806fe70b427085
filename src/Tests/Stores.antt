-- ===== src/Tests/Stores.antt =====
-- Job maps that the tests share.
use werrss.Common.{ℕ, refl, [], ◌∷◌, arith}
use werrss.Persistence.JobStore.{Store}
use werrss.Persistence.JobStore.Invariant.{WellFormed}
use werrss.Tests.Data.{
  queued_job, other_job, leased_job, queued_job-IsValid, other_job-IsValid, leased_job-IsValid,
}

abbrev pub two_jobs : Store ℕ
two_jobs = (1, queued_job) ∷ (2, other_job) ∷ []

-- The first job is under a lease that ends at 40.
abbrev pub after_claim : Store ℕ
after_claim = (1, leased_job) ∷ (2, other_job) ∷ []

pub two_jobs-WellFormed : WellFormed two_jobs
two_jobs-WellFormed = (
  record { named = refl; valid = queued_job-IsValid; limit = omega arith },
  (record { distinct = ground arith; unique = λ x y. ground arith }, tt),
  (record { named = refl; valid = other_job-IsValid; limit = omega arith }, tt, tt),
)

pub after_claim-WellFormed : WellFormed after_claim
after_claim-WellFormed = (
  record { named = refl; valid = leased_job-IsValid; limit = omega arith },
  (record { distinct = ground arith; unique = λ x y. ground arith }, tt),
  (record { named = refl; valid = other_job-IsValid; limit = omega arith }, tt, tt),
)
