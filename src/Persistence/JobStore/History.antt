-- ===== src/Persistence/JobStore/History.antt =====
-- Histories of the in-memory job repository: any sequence of its operations.
use werrss.Common.{ℕ, ℤ, ◌≤◌, ◌≡◌, Option, none, some, List, [], ◌∷◌, Text, Option-cases, inl, inr}
use werrss.Domain.Job.{
  Job, JobType, NewJob, Clock, u32_max, claim, defer, heartbeat, succeed, retry, fail, cancel,
}
use werrss.Domain.Job.History.{
  step, step-Keeps, claims, defers, heartbeats, succeeds, retries, fails, cancels,
}
use werrss.Persistence.JobStore.Table.{Store, lookup}
use werrss.Persistence.JobStore.Operations.{
  candidate, enqueue_in_store, claim_next_in_store, heartbeat_in_store, defer_in_store,
  succeed_in_store, retry_in_store, fail_in_store, cancel_in_store, recover_expired_in_store,
}
use werrss.Persistence.JobStore.Isolation.{
  JobOutcome, deferred_outcome, succeeded_outcome, retry_outcome, failed_outcome, cancelled_outcome,
  outcome_in_store,
}
use werrss.Persistence.JobStore.Invariant.{WellFormed, on_job-WellFormed, enqueue-WellFormed}
use werrss.Persistence.JobStore.Recovery.{recover_expired-Recovers}

pub data StoreCall (Value : Type 0) : Type 0 where
  enqueues : (id : ℕ) → NewJob Value → StoreCall Value
  claims_next : (token : ℕ) → Text → (now : ℕ) → ℤ → List JobType → StoreCall Value
  renews : (id : ℕ) → Text → (token now : ℕ) → ℤ → StoreCall Value
  outcomes : JobOutcome → StoreCall Value
  recovers_expired : (now limit : ℕ) → StoreCall Value

module _ {Value : Type 0} where
  abbrev pub store_or : Store Value → Option (Store Value × List (Job Value)) → Store Value
  store_or jobs none = jobs
  store_or jobs (some (after, recovered)) = after

  -- The map after an operation, whether or not it succeeded.
  unfoldable pub store_step : Clock → StoreCall Value → Store Value → Store Value
  store_step c (enqueues id spec) jobs = (enqueue_in_store id spec jobs).0
  store_step c (claims_next token owner now lease_for allowed) jobs =
      (claim_next_in_store c token owner now lease_for allowed jobs).0
  store_step c (renews id owner token now lease_for) jobs =
      (heartbeat_in_store c id owner token now lease_for jobs).0
  store_step c (outcomes outcome) jobs = (outcome_in_store outcome jobs).0
  store_step c (recovers_expired now limit) jobs =
      store_or jobs (recover_expired_in_store now limit jobs)

  unfoldable pub store_run : Clock → List (StoreCall Value) → Store Value → Store Value
  store_run c [] jobs = jobs
  store_run c (x ∷ xs) jobs = store_run c xs (store_step c x jobs)

  -- New jobs come under identifiers not in use, with a `u32` limit.
  abbrev pub IsFresh : StoreCall Value → Store Value → Type 0
  IsFresh (enqueues id spec) jobs = (lookup id jobs ≡ none) × (spec.max_attempts ≤ u32_max)
  IsFresh (claims_next token owner now lease_for allowed) jobs = Unit {0}
  IsFresh (renews id owner token now lease_for) jobs = Unit {0}
  IsFresh (outcomes outcome) jobs = Unit {0}
  IsFresh (recovers_expired now limit) jobs = Unit {0}

  unfoldable pub AllFresh : Clock → List (StoreCall Value) → Store Value → Type 0
  AllFresh c [] jobs = Unit {0}
  AllFresh c (x ∷ xs) jobs = IsFresh x jobs × AllFresh c xs (store_step c x jobs)

  pub claim_next-WellFormed :
      (c : Clock) (token : ℕ) (owner : Text) (now : ℕ) (lease_for : ℤ) (allowed : List JobType)
      (jobs : Store Value)
      → WellFormed jobs
      → WellFormed (claim_next_in_store c token owner now lease_for allowed jobs).0
  unfolding claim_next_in_store step
  claim_next-WellFormed c token owner now lease_for allowed jobs w =
      elim (Option-cases (candidate now allowed jobs)) [
        | inl absent ↦ rw (absent, claim_next_in_store) w
        | inr ((id, j), picked) ↦
            rw (picked, claim_next_in_store)
              (on_job-WellFormed id (claim c token owner now lease_for) jobs
                (λ j u v. step-Keeps c (claims token owner now lease_for) j u v) w)
      ]

  outcome-WellFormed :
      (c : Clock) (outcome : JobOutcome) (jobs : Store Value)
      → WellFormed jobs
      → WellFormed (outcome_in_store outcome jobs).0
  unfolding outcome_in_store defer_in_store succeed_in_store retry_in_store fail_in_store
      cancel_in_store step
  outcome-WellFormed c (deferred_outcome id owner token now resume_at) jobs w =
      on_job-WellFormed id (defer owner token now resume_at) jobs
        (λ j u v. step-Keeps c (defers owner token now resume_at) j u v) w
  outcome-WellFormed c (succeeded_outcome id owner token now) jobs w =
      on_job-WellFormed id (succeed owner token now) jobs
        (λ j u v. step-Keeps c (succeeds owner token now) j u v) w
  outcome-WellFormed c (retry_outcome id owner token now retry_at error) jobs w =
      on_job-WellFormed id (retry owner token now retry_at error) jobs
        (λ j u v. step-Keeps c (retries owner token now retry_at error) j u v) w
  outcome-WellFormed c (failed_outcome id owner token now error) jobs w =
      on_job-WellFormed id (fail owner token now error) jobs
        (λ j u v. step-Keeps c (fails owner token now error) j u v) w
  outcome-WellFormed c (cancelled_outcome id now reason) jobs w =
      on_job-WellFormed id (cancel now reason) jobs
        (λ j u v. step-Keeps c (cancels now reason) j u v) w

  pub store_step-WellFormed :
      (c : Clock) (x : StoreCall Value) (jobs : Store Value)
      → IsFresh x jobs
      → WellFormed jobs
      → WellFormed (store_step c x jobs)
  unfolding store_step heartbeat_in_store step
  store_step-WellFormed c (enqueues id spec) jobs f w = enqueue-WellFormed id spec jobs f.0 f.1 w
  store_step-WellFormed c (claims_next token owner now lease_for allowed) jobs f w =
      claim_next-WellFormed c token owner now lease_for allowed jobs w
  store_step-WellFormed c (renews id owner token now lease_for) jobs f w =
      on_job-WellFormed id (heartbeat c owner token now lease_for) jobs
        (λ j u v. step-Keeps c (heartbeats owner token now lease_for) j u v) w
  store_step-WellFormed c (outcomes outcome) jobs f w = outcome-WellFormed c outcome jobs w
  store_step-WellFormed c (recovers_expired now limit) jobs f w =
      let (after, recovered, ran, entries, short, w') = recover_expired-Recovers now limit jobs w in
      rw ran w'

  -- After any sequence of operations, accepted or refused, that enqueues under identifiers not in
  -- use, a well-formed map is well formed: its jobs are valid, each under its own identifier, and
  -- at most one active job has any deduplication key.
  pub store_run-WellFormed :
      (c : Clock) (xs : List (StoreCall Value)) (jobs : Store Value)
      → AllFresh c xs jobs
      → WellFormed jobs
      → WellFormed (store_run c xs jobs)
  unfolding store_run AllFresh
  store_run-WellFormed c [] jobs f w = w
  store_run-WellFormed c (x ∷ xs) jobs f w =
      store_run-WellFormed c xs (store_step c x jobs) f.1 (store_step-WellFormed c x jobs f.0 w)
