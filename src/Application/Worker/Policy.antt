-- ===== src/Application/Worker/Policy.antt =====
-- The configuration of a worker against the lease of its service, src/application/worker.rs.
use werrss.Common.{ℕ, ◌<◌, ◌≡◌, ◌≢◌, ℤ, Option, none, some, List, [], ok, arith}
use werrss.Domain.Job.{JobType}
use werrss.Application.Worker.{WorkerConfig, new_with_execution_timeout, validate_for_lease}

-- The duration is there and longer.
abbrev pub IsLonger : ℕ → Option ℕ → Type 0
IsLonger n none = ⊥
IsLonger n (some m) = n < m

-- A configuration that its constructor accepts, and that is accepted for a lease, allows some kind
-- of job, has a positive timeout, and beats at a positive interval that is shorter than the lease.
pub validate_for_lease-IsLonger :
    (to_std : ℤ → Option ℕ) (lease_for : ℤ) (types : List JobType) (every timeout : ℕ)
    (config : WorkerConfig)
    → new_with_execution_timeout types every timeout ≡ ok config
    → validate_for_lease to_std lease_for config ≡ ok tt
    → (config.allowed_job_types ≢ [])
      × (0 < config.execution_timeout)
      × (0 < config.heartbeat_every)
      × IsLonger config.heartbeat_every (to_std lease_for)
unfolding new_with_execution_timeout validate_for_lease
validate_for_lease-IsLonger to_std lease_for types every timeout config h k = ground arith
