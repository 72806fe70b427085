-- ===== src/Domain/Job/Guards.antt =====
-- When each call of src/domain/job.rs is accepted.
use werrss.Common.{
  ℕ, ◌≤◌, ◌<◌, ◌≡◌, ◌↔◌, ◌⊎◌, true, false, Option, none, some, Text, ok, is_ok, is_blank,
  opt_text_eq-some, opt_text_eq_self, arith,
}
use werrss.Domain.Job.Types.{
  Job, running, is_waiting, Operation, defer_op, heartbeat_op, succeed_op, retry_op, fail_op, Clock,
  u32_max,
}
use werrss.Domain.Job.Transitions.{
  claim, defer, heartbeat, succeed, retry, fail, cancel, recover_expired_lease, ensure_live_owner,
  lease_expiry, validate_owner, nonempty_error,
}
use werrss.Domain.Job.Validity.{IsValid}
use werrss.Domain.Job.History.{
  Call, claims, defers, heartbeats, succeeds, retries, fails, cancels, recovers, step,
}

-- The instant is given, and lies after `now`.
abbrev pub EndsAfter : Option ℕ → ℕ → Type 0
EndsAfter none now = ⊥
EndsAfter (some until) now = now < until

module _ {Value : Type 0} where
  -- The caller is the running job's owner, with the current token, before the lease ends.
  pub record HoldsLease (owner : Text) (token now : ℕ) (j : Job Value) : Type 0 where
    pub runs : j.status ≡ running
    pub owns : j.lease_owner ≡ some owner
    pub current : j.lease_token ≡ some token
    pub live : EndsAfter j.lease_until now

  ensure_live_owner-HoldsLease :
      (owner : Text) (token now : ℕ) (op : Operation) (j : Job Value)
      → ensure_live_owner owner token now op j ≡ ok tt
      → HoldsLease owner token now j
  unfolding ensure_live_owner
  ensure_live_owner-HoldsLease owner token now op j h =
      ground (arith, opt_text_eq-some j.lease_owner owner)

  ensure_live_owner_accepts :
      (owner : Text) (token now : ℕ) (op : Operation) (j : Job Value)
      → HoldsLease owner token now j
      → ensure_live_owner owner token now op j ≡ ok tt
  unfolding ensure_live_owner
  ensure_live_owner_accepts owner token now op j h = ground (arith, opt_text_eq_self owner)

  -- What each call asks for, the arguments first.
  unfoldable pub Allowed : Clock → Job Value → Call → Type 0
  Allowed c j (claims token owner now lease_for) =
      (is_blank owner ≡ false)
      × (is_ok (lease_expiry c now lease_for) ≡ true)
      × (is_waiting j.status ≡ true)
      × (j.run_after ≤ now)
      × (j.failure_count < j.max_attempts)
      × (j.claim_count < u32_max)
  Allowed c j (defers owner token now resume_at) =
      (is_blank owner ≡ false) × (now < resume_at) × HoldsLease owner token now j
  Allowed c j (heartbeats owner token now lease_for) =
      (is_blank owner ≡ false)
      × (is_ok (lease_expiry c now lease_for) ≡ true)
      × HoldsLease owner token now j
  Allowed c j (succeeds owner token now) = (is_blank owner ≡ false) × HoldsLease owner token now j
  Allowed c j (retries owner token now retry_at error) =
      (is_blank owner ≡ false) × (is_blank error ≡ false) × HoldsLease owner token now j
  Allowed c j (fails owner token now error) =
      (is_blank owner ≡ false) × (is_blank error ≡ false) × HoldsLease owner token now j
  Allowed c j (cancels now reason) = (is_blank reason ≡ false) × (is_waiting j.status ≡ true)
  Allowed c j (recovers now) =
      (j.status ≡ running) × ((j.lease_until ≡ none) ⊎ ¬ EndsAfter j.lease_until now)

  pub accepted-Allowed :
      (c : Clock) (x : Call) (j : Job Value) → (step c x j).1 ≡ true → Allowed c j x
  unfolding step Allowed claim defer heartbeat succeed retry fail cancel recover_expired_lease
      validate_owner nonempty_error
  accepted-Allowed c (claims token owner now lease_for) j h = ground arith
  accepted-Allowed c (defers owner token now resume_at) j h =
      ground (arith, ensure_live_owner-HoldsLease owner token now defer_op j)
  accepted-Allowed c (heartbeats owner token now lease_for) j h =
      ground (arith, ensure_live_owner-HoldsLease owner token now heartbeat_op j)
  accepted-Allowed c (succeeds owner token now) j h =
      ground (arith, ensure_live_owner-HoldsLease owner token now succeed_op j)
  accepted-Allowed c (retries owner token now retry_at error) j h =
      ground (arith, ensure_live_owner-HoldsLease owner token now retry_op j)
  accepted-Allowed c (fails owner token now error) j h =
      ground (arith, ensure_live_owner-HoldsLease owner token now fail_op j)
  accepted-Allowed c (cancels now reason) j h = ground arith
  accepted-Allowed c (recovers now) j h = ground arith

  Allowed-accepted :
      (c : Clock) (x : Call) (j : Job Value)
      → j.max_attempts ≤ u32_max
      → IsValid j
      → Allowed c j x
      → (step c x j).1 ≡ true
  unfolding step Allowed claim defer heartbeat succeed retry fail cancel recover_expired_lease
      validate_owner nonempty_error
  Allowed-accepted c (claims token owner now lease_for) j u v a = ground arith
  Allowed-accepted c (defers owner token now resume_at) j u v a =
      ground (arith, ensure_live_owner_accepts owner token now defer_op j)
  Allowed-accepted c (heartbeats owner token now lease_for) j u v a =
      ground (arith, ensure_live_owner_accepts owner token now heartbeat_op j)
  Allowed-accepted c (succeeds owner token now) j u v a =
      ground (arith, ensure_live_owner_accepts owner token now succeed_op j)
  Allowed-accepted c (retries owner token now retry_at error) j u v a =
      ground (arith, ensure_live_owner_accepts owner token now retry_op j)
  Allowed-accepted c (fails owner token now error) j u v a =
      ground (arith, ensure_live_owner_accepts owner token now fail_op j)
  Allowed-accepted c (cancels now reason) j u v a = ground arith
  Allowed-accepted c (recovers now) j u v a = ground arith

  -- On a valid job, its attempt limit a `u32`, a call is accepted exactly when its arguments are
  -- good and the job's state allows it: a claim of a due waiting job with budget left, a worker's
  -- call by the holder of the live lease, a cancellation of a waiting job, a recovery of a running
  -- job whose lease is absent or over.
  pub step-accepted_iff :
      (c : Clock) (x : Call) (j : Job Value)
      → j.max_attempts ≤ u32_max
      → IsValid j
      → ((step c x j).1 ≡ true) ↔ Allowed c j x
  step-accepted_iff c x j u v = (accepted-Allowed c x j, Allowed-accepted c x j u v)
