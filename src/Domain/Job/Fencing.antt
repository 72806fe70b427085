-- ===== src/Domain/Job/Fencing.antt =====
-- Lease fencing over histories of a job, src/domain/job.rs.
use werrss.Common.{
  ℕ, ◌<◌, ◌≡◌, refl, ◌≢◌, ◌⊎◌, false, Option, none, some, List, [], ◌∷◌, All, arith,
}
use werrss.Domain.Job.Types.{Job, running, Clock}
use werrss.Domain.Job.Transitions.{
  claim, defer, heartbeat, succeed, retry, fail, cancel, recover_expired_lease, ensure_live_owner,
}
use werrss.Domain.Job.Guards.{Allowed, accepted-Allowed}
use werrss.Domain.Job.History.{
  Call, claims, defers, heartbeats, succeeds, retries, fails, cancels, recovers, step, run,
}

-- The token that a call presents, and the one that it issues.
abbrev pub presented : Call → Option ℕ
presented (defers owner token now resume_at) = some token
presented (heartbeats owner token now lease_for) = some token
presented (succeeds owner token now) = some token
presented (retries owner token now retry_at error) = some token
presented (fails owner token now error) = some token
presented _ = none

abbrev pub issued : Call → Option ℕ
issued (claims token owner now lease_for) = some token
issued _ = none

abbrev pub instant : Call → ℕ
instant (claims token owner now lease_for) = now
instant (defers owner token now resume_at) = now
instant (heartbeats owner token now lease_for) = now
instant (succeeds owner token now) = now
instant (retries owner token now retry_at error) = now
instant (fails owner token now error) = now
instant (cancels now reason) = now
instant (recovers now) = now

module _ {Value : Type 0} where
  step-lease_token :
      (c : Clock) (x : Call) (j : Job Value)
      → ((step c x j).0.lease_token ≡ j.lease_token)
        ⊎ (((step c x j).0.lease_token ≡ none) ⊎ ((step c x j).0.lease_token ≡ issued x))
  unfolding step claim defer heartbeat succeed retry fail cancel recover_expired_lease
  step-lease_token c (claims token owner now lease_for) j = ground arith
  step-lease_token c _ j = ground arith

  run-lease_token :
      (c : Clock) (token : ℕ) (xs : List Call) (j : Job Value)
      → j.lease_token ≢ some token
      → All (λ x. issued x ≢ some token) xs
      → (run c xs j).lease_token ≢ some token
  unfolding run
  run-lease_token c token [] j h a = h
  run-lease_token c token (x ∷ xs) j h a =
      run-lease_token c token xs (step c x j).0 (ground (arith, step-lease_token c x j)) a.1

  pub presented-refused :
      (c : Clock) (token : ℕ) (x : Call) (j : Job Value)
      → j.lease_token ≢ some token
      → presented x ≡ some token
      → (step c x j).1 ≡ false
  unfolding Allowed
  presented-refused c token (claims t owner now lease_for) j h p = cc
  presented-refused c token (defers owner t now resume_at) j h p =
      ground (arith, accepted-Allowed c (defers owner t now resume_at) j)
  presented-refused c token (heartbeats owner t now lease_for) j h p =
      ground (arith, accepted-Allowed c (heartbeats owner t now lease_for) j)
  presented-refused c token (succeeds owner t now) j h p =
      ground (arith, accepted-Allowed c (succeeds owner t now) j)
  presented-refused c token (retries owner t now retry_at error) j h p =
      ground (arith, accepted-Allowed c (retries owner t now retry_at error) j)
  presented-refused c token (fails owner t now error) j h p =
      ground (arith, accepted-Allowed c (fails owner t now error) j)
  presented-refused c token (cancels now reason) j h p = cc
  presented-refused c token (recovers now) j h p = cc

  -- A token that is not the job's, and that no later claim issues, is never accepted again: after
  -- any sequence of calls, a worker's call that presents it is refused.
  pub run_stale :
      (c : Clock) (token : ℕ) (xs : List Call) (x : Call) (j : Job Value)
      → j.lease_token ≢ some token
      → All (λ y. issued y ≢ some token) xs
      → presented x ≡ some token
      → (step c x (run c xs j)).1 ≡ false
  run_stale c token xs x j h a p =
      presented-refused c token x (run c xs j) (run-lease_token c token xs j h a) p

  step_held :
      (c : Clock) (token until : ℕ) (x : Call) (j : Job Value)
      → j.status ≡ running
      → j.lease_token ≡ some token
      → j.lease_until ≡ some until
      → presented x ≢ some token
      → instant x < until
      → step c x j ≡ (j, false)
  unfolding step claim defer heartbeat succeed retry fail cancel recover_expired_lease
      ensure_live_owner
  step_held c token until (claims t owner now lease_for) j r k l p i = ground arith
  step_held c token until (defers owner t now resume_at) j r k l p i = ground arith
  step_held c token until (heartbeats owner t now lease_for) j r k l p i = ground arith
  step_held c token until (succeeds owner t now) j r k l p i = ground arith
  step_held c token until (retries owner t now retry_at error) j r k l p i = ground arith
  step_held c token until (fails owner t now error) j r k l p i = ground arith
  step_held c token until (cancels now reason) j r k l p i = ground arith
  step_held c token until (recovers now) j r k l p i = ground arith

  -- Until its lease ends a running job is its holder's: calls made before that instant which do not
  -- present the current token change nothing.
  pub run_held :
      (c : Clock) (token until : ℕ) (xs : List Call) (j : Job Value)
      → j.status ≡ running
      → j.lease_token ≡ some token
      → j.lease_until ≡ some until
      → All (λ x. (presented x ≢ some token) × (instant x < until)) xs
      → run c xs j ≡ j
  unfolding run
  run_held c token until [] j r k l a = refl
  run_held c token until (x ∷ xs) j r k l a =
      rw (step_held c token until x j r k l a.0.0 a.0.1) (run_held c token until xs j r k l a.1)
