-- ===== src/Domain/Job/Budget.antt =====
-- Counters and the end of a job's life, src/domain/job.rs.
use werrss.Common.{ℕ, ◌+◌, ◌≤◌, ◌≡◌, refl, Bool, true, false, List, [], ◌∷◌, if◌then◌else◌, arith}
use werrss.Domain.Job.Types.{Job, is_terminal, Clock, u32_max}
use werrss.Domain.Job.Transitions.{
  claim, defer, heartbeat, succeed, retry, fail, cancel, recover_expired_lease, ensure_live_owner,
}
use werrss.Domain.Job.Validity.{IsValid}
use werrss.Domain.Job.History.{
  Call, claims, retries, recovers, step, run, step-IsValid, step-max_attempts,
}

abbrev pub is_claim : Call → Bool
is_claim (claims token owner now lease_for) = true
is_claim _ = false

-- The calls that spend failure budget.
abbrev pub is_failure : Call → Bool
is_failure (retries owner token now retry_at error) = true
is_failure (recovers now) = true
is_failure _ = false

abbrev pub one_if : Bool → ℕ
one_if true = 1
one_if false = 0

-- How many calls of a history were of the kind and were accepted.
module _ {Value : Type 0} where
  pub accepted : (Call → Bool) → Clock → List Call → Job Value → ℕ
  accepted kind c [] j = 0
  accepted kind c (x ∷ xs) j =
      (if kind x then one_if (step c x j).1 else 0) + accepted kind c xs (step c x j).0

  step-counts :
      (c : Clock) (x : Call) (j : Job Value)
      → j.max_attempts ≤ u32_max
      → IsValid j
      → ((step c x j).0.claim_count
          ≡ j.claim_count + (if is_claim x then one_if (step c x j).1 else 0))
        × ((step c x j).0.failure_count
            ≡ j.failure_count + (if is_failure x then one_if (step c x j).1 else 0))
  unfolding step claim defer heartbeat succeed retry fail cancel recover_expired_lease
      ensure_live_owner
  step-counts c (claims token owner now lease_for) j u v = ground arith
  step-counts c _ j u v = ground arith

  -- From a valid job, its attempt limit a `u32`, every history counts its accepted claims in
  -- `claim_count` and its accepted retries and recoveries in `failure_count`, which stays within
  -- the attempt limit; no other call moves either counter.
  pub run-counts :
      (c : Clock) (xs : List Call) (j : Job Value)
      → j.max_attempts ≤ u32_max
      → IsValid j
      → ((run c xs j).claim_count ≡ j.claim_count + accepted is_claim c xs j)
        × ((run c xs j).failure_count ≡ j.failure_count + accepted is_failure c xs j)
        × (j.failure_count + accepted is_failure c xs j ≤ j.max_attempts)
  unfolding run accepted
  run-counts c [] j u v = omega arith
  run-counts c (x ∷ xs) j u v =
      let next = step-max_attempts c x j in
      let rest = run-counts c xs (step c x j).0 (omega (arith, next)) (step-IsValid c x j u v) in
      omega (arith, step-counts c x j u v, rest, next)

  step_terminal :
      (c : Clock) (x : Call) (j : Job Value) → is_terminal j.status ≡ true → step c x j ≡ (j, false)
  unfolding step claim defer heartbeat succeed retry fail cancel recover_expired_lease
      ensure_live_owner
  step_terminal c (claims token owner now lease_for) j t = ground arith
  step_terminal c _ j t = ground arith

  -- A succeeded or failed job refuses every call, and no history changes it.
  pub run_terminal :
      (c : Clock) (xs : List Call) (j : Job Value)
      → is_terminal j.status ≡ true
      → (run c xs j ≡ j) × (accepted (λ x. true) c xs j ≡ 0)
  unfolding run accepted
  run_terminal c [] j t = (refl, refl)
  run_terminal c (x ∷ xs) j t =
      rw (step_terminal c x j t)
        (let rest = run_terminal c xs j t in (rest.0, omega (arith, rest.1)))
