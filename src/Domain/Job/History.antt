-- ===== src/Domain/Job/History.antt =====
-- Histories of a job: any sequence of calls of the methods of src/domain/job.rs, with the instants
-- and the fresh tokens that they were given.
use werrss.Common.{true, ℕ, ◌≤◌, ℤ, ◌≡◌, Bool, false, List, [], ◌∷◌, Text, ok, is_ok, arith}
use werrss.Domain.Job.Types.{Job, Clock, u32_max, is_active}
use werrss.Domain.Job.Persisted.{from_persisted}
use werrss.Domain.Job.Transitions.{
  claim, defer, heartbeat, succeed, retry, fail, cancel, recover_expired_lease, ensure_live_owner,
}
use werrss.Domain.Job.Validity.{
  IsValid, validate_complete, claim-IsValid, defer-IsValid, heartbeat-IsValid, succeed-IsValid,
  retry-IsValid, fail-IsValid, cancel-IsValid, recover_expired_lease-IsValid,
}

pub data Call : Type 0 where
  claims : (token : ℕ) → Text → (now : ℕ) → ℤ → Call
  defers : Text → (token now resume_at : ℕ) → Call
  heartbeats : Text → (token now : ℕ) → ℤ → Call
  succeeds : Text → (token now : ℕ) → Call
  retries : Text → (token now retry_at : ℕ) → Text → Call
  fails : Text → (token now : ℕ) → Text → Call
  cancels : (now : ℕ) → Text → Call
  recovers : (now : ℕ) → Call

module _ {Value : Type 0} where
  -- The job after a call, and whether the call was accepted.
  unfoldable pub step : Clock → Call → Job Value → Job Value × Bool
  step c (claims token owner now lease_for) j =
      let r = claim c token owner now lease_for j in (r.0, is_ok r.1)
  step c (defers owner token now resume_at) j =
      let r = defer owner token now resume_at j in (r.0, is_ok r.1)
  step c (heartbeats owner token now lease_for) j =
      let r = heartbeat c owner token now lease_for j in (r.0, is_ok r.1)
  step c (succeeds owner token now) j = let r = succeed owner token now j in (r.0, is_ok r.1)
  step c (retries owner token now retry_at error) j =
      let r = retry owner token now retry_at error j in (r.0, is_ok r.1)
  step c (fails owner token now error) j = let r = fail owner token now error j in (r.0, is_ok r.1)
  step c (cancels now reason) j = let r = cancel now reason j in (r.0, is_ok r.1)
  step c (recovers now) j = recover_expired_lease now j

  unfoldable pub run : Clock → List Call → Job Value → Job Value
  run c [] j = j
  run c (x ∷ xs) j = run c xs (step c x j).0

  pub step-max_attempts :
      (c : Clock) (x : Call) (j : Job Value) → (step c x j).0.max_attempts ≡ j.max_attempts
  unfolding step claim defer heartbeat succeed retry fail cancel recover_expired_lease
  step-max_attempts c (claims token owner now lease_for) j = ground arith
  step-max_attempts c _ j = ground arith

  pub step-IsValid :
      (c : Clock) (x : Call) (j : Job Value)
      → j.max_attempts ≤ u32_max
      → IsValid j
      → IsValid (step c x j).0
  unfolding step
  step-IsValid c (claims token owner now lease_for) j u v =
      claim-IsValid c token owner now lease_for j v
  step-IsValid c (defers owner token now resume_at) j u v =
      defer-IsValid owner token now resume_at j v
  step-IsValid c (heartbeats owner token now lease_for) j u v =
      heartbeat-IsValid c owner token now lease_for j v
  step-IsValid c (succeeds owner token now) j u v = succeed-IsValid owner token now j v
  step-IsValid c (retries owner token now retry_at error) j u v =
      retry-IsValid owner token now retry_at error j u v
  step-IsValid c (fails owner token now error) j u v = fail-IsValid owner token now error j v
  step-IsValid c (cancels now reason) j u v = cancel-IsValid now reason j v
  step-IsValid c (recovers now) j u v = recover_expired_lease-IsValid now j u v

  pub run-IsValid :
      (c : Clock) (xs : List Call) (j : Job Value)
      → j.max_attempts ≤ u32_max
      → IsValid j
      → IsValid (run c xs j)
  unfolding run
  run-IsValid c [] j u v = v
  run-IsValid c (x ∷ xs) j u v =
      run-IsValid c xs (step c x j).0 (omega (arith, step-max_attempts c x j))
        (step-IsValid c x j u v)

  -- A job that is valid, its attempt limit a `u32`, is still accepted by `from_persisted` after any
  -- sequence of calls, accepted or refused, and is read back unchanged.
  pub from_persisted-run :
      (c : Clock) (xs : List Call) (j : Job Value)
      → j.max_attempts ≤ u32_max
      → IsValid j
      → from_persisted (run c xs j) ≡ ok (run c xs j)
  unfolding from_persisted
  from_persisted-run c xs j u v =
      ground (arith, validate_complete (run c xs j) (run-IsValid c xs j u v))

  retry_refused :
      (owner : Text) (token now retry_at : ℕ) (error : Text) (j : Job Value)
      → j.max_attempts ≤ u32_max
      → IsValid j
      → is_ok (retry owner token now retry_at error j).1 ≡ false
      → (retry owner token now retry_at error j).0 ≡ j
  unfolding retry ensure_live_owner
  retry_refused owner token now retry_at error j u v h = ground arith

  -- On a valid job, its attempt limit a `u32`, a call that is refused leaves every field as it was.
  pub step_refused :
      (c : Clock) (x : Call) (j : Job Value)
      → j.max_attempts ≤ u32_max
      → IsValid j
      → (step c x j).1 ≡ false
      → (step c x j).0 ≡ j
  unfolding step claim defer heartbeat succeed fail cancel recover_expired_lease
  step_refused c (claims token owner now lease_for) j u v h = ground arith
  step_refused c (retries owner token now retry_at error) j u v h =
      retry_refused owner token now retry_at error j u v h
  step_refused c _ j u v h = ground arith

  -- What a method of `Job` may never do: rename the job, change its key or its limit, leave it
  -- malformed, or bring a terminal job back.
  pub record Keeps (j k : Job Value) : Type 0 where
    pub same_id : k.id ≡ j.id
    pub same_key : k.dedupe_key ≡ j.dedupe_key
    pub same_limit : k.max_attempts ≡ j.max_attempts
    pub valid : IsValid k
    pub awake : is_active k.status ≡ true → is_active j.status ≡ true

  step-frame :
      (c : Clock) (x : Call) (j : Job Value)
      → ((step c x j).0.id ≡ j.id)
        × ((step c x j).0.dedupe_key ≡ j.dedupe_key)
        × ((step c x j).0.max_attempts ≡ j.max_attempts)
        × (is_active (step c x j).0.status ≡ true → is_active j.status ≡ true)
  unfolding step claim defer heartbeat succeed retry fail cancel recover_expired_lease
      ensure_live_owner
  step-frame c (claims token owner now lease_for) j = ground arith
  step-frame c _ j = ground arith

  pub step-Keeps :
      (c : Clock) (x : Call) (j : Job Value)
      → j.max_attempts ≤ u32_max
      → IsValid j
      → Keeps j (step c x j).0
  step-Keeps c x j u v =
      let f = step-frame c x j in
      record {
        same_id = f.0;
        same_key = f.1;
        same_limit = f.2;
        valid = step-IsValid c x j u v;
        awake = f.3;
      }
