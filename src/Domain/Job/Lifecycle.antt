-- ===== src/Domain/Job/Lifecycle.antt =====
-- The lifecycle diagram at the head of src/domain/job.rs.
use werrss.Common.{
  ℕ, suc, ◌+◌, ℤ, pos, ◌≡◌, true, some, Text, opt_text_eq_self, ltb, if◌then◌else◌, ok, err, is_ok,
  Result-cases, inl, inr, zero, arith,
}
use werrss.Domain.Job.Types.{
  Job, JobStatus, queued, running, retry_wait, deferred, succeeded, failed, Clock, lease_expired,
  IsExact,
}
use werrss.Domain.Job.Transitions.{
  claim, defer, heartbeat, succeed, retry, fail, cancel, recover_expired_lease, ensure_live_owner,
  validate_owner, lease_expiry,
}
use werrss.Domain.Job.History.{
  Call, claims, defers, heartbeats, succeeds, retries, fails, cancels, recovers, step,
}

-- One arrow of the diagram for each call that takes it.
pub data Arrow : Call → JobStatus → JobStatus → Type 0 where
  claim_queued :
      (token : ℕ) (owner : Text) (now : ℕ) (d : ℤ) → Arrow (claims token owner now d) queued running
  claim_retry_wait :
      (token : ℕ) (owner : Text) (now : ℕ) (d : ℤ)
      → Arrow (claims token owner now d) retry_wait running
  claim_deferred :
      (token : ℕ) (owner : Text) (now : ℕ) (d : ℤ)
      → Arrow (claims token owner now d) deferred running
  beat :
      (owner : Text) (token now : ℕ) (d : ℤ) → Arrow (heartbeats owner token now d) running running
  postpone : (owner : Text) (token now at : ℕ) → Arrow (defers owner token now at) running deferred
  finish : (owner : Text) (token now : ℕ) → Arrow (succeeds owner token now) running succeeded
  wait_again :
      (owner : Text) (token now at : ℕ) (e : Text)
      → Arrow (retries owner token now at e) running retry_wait
  exhaust :
      (owner : Text) (token now at : ℕ) (e : Text)
      → Arrow (retries owner token now at e) running failed
  break : (owner : Text) (token now : ℕ) (e : Text) → Arrow (fails owner token now e) running failed
  cancel_queued : (now : ℕ) (e : Text) → Arrow (cancels now e) queued failed
  cancel_retry_wait : (now : ℕ) (e : Text) → Arrow (cancels now e) retry_wait failed
  cancel_deferred : (now : ℕ) (e : Text) → Arrow (cancels now e) deferred failed
  requeue : (now : ℕ) → Arrow (recovers now) running queued
  abandon : (now : ℕ) → Arrow (recovers now) running failed

ruleset arrows = (
  claim_queued, claim_retry_wait, claim_deferred, beat, postpone, finish, wait_again, exhaust,
  break, cancel_queued, cancel_retry_wait, cancel_deferred, requeue, abandon,
)

lease_expiry-exact :
    (c : Clock) (now n until : ℕ)
    → IsExact c
    → lease_expiry c now (pos n) ≡ ok until
    → until ≡ now + n
unfolding lease_expiry
lease_expiry-exact c now zero until e h = cc
lease_expiry-exact c now (suc n) until e h = ground (arith, e.exact now (suc n) until)

module _ {Value : Type 0} where
  -- Every accepted call takes an arrow of the documented diagram.
  pub step-Arrow :
      (c : Clock) (x : Call) (j : Job Value)
      → (step c x j).1 ≡ true
      → Arrow x j.status (step c x j).0.status
  unfolding step claim defer heartbeat succeed retry fail cancel recover_expired_lease
      ensure_live_owner
  step-Arrow c (claims token owner now d) j h = grind (arith, arrows)
  step-Arrow c (defers owner token now at) j h = grind (arith, arrows)
  step-Arrow c (heartbeats owner token now d) j h = grind (arith, arrows)
  step-Arrow c (succeeds owner token now) j h = grind (arith, arrows)
  step-Arrow c (retries owner token now at e) j h = grind (arith, arrows)
  step-Arrow c (fails owner token now e) j h = grind (arith, arrows)
  step-Arrow c (cancels now e) j h = grind (arith, arrows)
  step-Arrow c (recovers now) j h = grind (arith, arrows)

  pub claim_sets :
      (c : Clock) (token : ℕ) (owner : Text) (now : ℕ) (d : ℤ) (until : ℕ) (j : Job Value)
      → lease_expiry c now d ≡ ok until
      → (claim c token owner now d j).1 ≡ ok token
      → let k = (claim c token owner now d j).0 in
        (validate_owner owner ≡ ok tt)
        × (k.status ≡ running)
        × (k.lease_owner ≡ some owner)
        × (k.lease_token ≡ some token)
        × (k.lease_until ≡ some until)
  unfolding claim
  claim_sets c token owner now d until j x h = ground arith

  claim_needs :
      (c : Clock) (token : ℕ) (owner : Text) (now : ℕ) (d : ℤ) (j : Job Value)
      → (claim c token owner now d j).1 ≡ ok token
      → is_ok (lease_expiry c now d) ≡ true
  unfolding claim
  claim_needs c token owner now d j h = ground arith

  pub claim-until :
      (c : Clock) (token : ℕ) (owner : Text) (now n : ℕ) (j : Job Value)
      → IsExact c
      → (claim c token owner now (pos n) j).1 ≡ ok token
      → let k = (claim c token owner now (pos n) j).0 in
        (validate_owner owner ≡ ok tt)
        × (k.status ≡ running)
        × (k.lease_owner ≡ some owner)
        × (k.lease_token ≡ some token)
        × (k.lease_until ≡ some (now + n))
  claim-until c token owner now n j e h = elim (Result-cases (lease_expiry c now (pos n))) [
    | inl (x, q) ↦ absurd (ground (arith, claim_needs c token owner now (pos n) j h))
    | inr (u, q) ↦
        rw (← lease_expiry-exact c now n u e q) (claim_sets c token owner now (pos n) u j q h)
  ]

  succeed_held :
      (token : ℕ) (owner : Text) (later until : ℕ) (k : Job Value)
      → (validate_owner owner ≡ ok tt)
        × (k.status ≡ running)
        × (k.lease_owner ≡ some owner)
        × (k.lease_token ≡ some token)
        × (k.lease_until ≡ some until)
      → ((succeed owner token later k).1 ≡ (if ltb later until then ok tt else err lease_expired))
        × ((succeed owner token later k).0.status
            ≡ (if ltb later until then succeeded else running))
  unfolding succeed ensure_live_owner
  succeed_held token owner later until k h = ground (arith, opt_text_eq_self owner)

  -- With a clock that adds exactly, an accepted claim for `n` nanoseconds at `now` can be brought to
  -- success by the claimant at every instant before `now + n`; from then on it is told that the
  -- lease has expired, and the job is still running.
  pub claim-succeed :
      (c : Clock) (token : ℕ) (owner : Text) (now n later : ℕ) (j : Job Value)
      → IsExact c
      → (claim c token owner now (pos n) j).1 ≡ ok token
      → let k = (claim c token owner now (pos n) j).0 in
        ((succeed owner token later k).1
          ≡ (if ltb later (now + n) then ok tt else err lease_expired))
        × ((succeed owner token later k).0.status
            ≡ (if ltb later (now + n) then succeeded else running))
  claim-succeed c token owner now n later j e h =
      succeed_held token owner later (now + n) (claim c token owner now (pos n) j).0
        (claim-until c token owner now n j e h)
