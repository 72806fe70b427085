-- ===== src/Persistence/JobStore/Isolation.antt =====
-- Transactions of the in-memory job repository and the outcome port,
-- src/persistence/repositories/job_repository.rs.
use werrss.Common.{
  ℕ, ℤ, Bool, true, false, Option, none, some, List, Text, Result, ok, err, Method, if◌then◌else◌,
  not, ◌&&◌,
}
use werrss.Domain.Job.{Job, JobType, NewJob, Clock}
use werrss.Persistence.JobStore.Table.{JobRepositoryError, storage, Store}
use werrss.Persistence.JobStore.Operations.{
  EnqueueResult, JobLease, enqueue_in_store, claim_next_in_store, heartbeat_in_store,
  defer_in_store, succeed_in_store, retry_in_store, fail_in_store, cancel_in_store,
  recover_expired_in_store,
}

pub data JobOutcome : Type 0 where
  deferred_outcome : (job_id : ℕ) (owner : Text) (token now resume_at : ℕ) → JobOutcome
  succeeded_outcome : (job_id : ℕ) (owner : Text) (token now : ℕ) → JobOutcome
  retry_outcome : (job_id : ℕ) (owner : Text) (token now retry_at : ℕ) (error : Text) → JobOutcome
  failed_outcome : (job_id : ℕ) (owner : Text) (token now : ℕ) (error : Text) → JobOutcome
  cancelled_outcome : (job_id now : ℕ) (reason : Text) → JobOutcome

-- `shared` is the map behind the mutex, which the transaction holds while `guard` is true.
pub record Transaction (Value : Type 0) : Type 0 where
  pub shared : Store Value
  pub guard : Bool
  pub backup : Store Value
  pub committed : Bool

module _ {Value : Type 0} where
  unfoldable pub begin : Store Value → Transaction Value
  begin jobs = record { shared = jobs; guard = true; backup = jobs; committed = false }

  -- `self.jobs_mut()?`, then an operation on the map.
  unfoldable pub on_jobs :
      {A : Type 0}
      → Method (Store Value) JobRepositoryError A
      → Method (Transaction Value) JobRepositoryError A
  on_jobs operation tx =
      let r = operation tx.shared in
      if tx.guard then (record tx { shared = r.0 }, r.1) else (tx, err storage)

  -- The methods of `MemoryJobTransaction`.
  unfoldable pub enqueue :
      ℕ → NewJob Value → Method (Transaction Value) JobRepositoryError (EnqueueResult Value)
  enqueue id spec = on_jobs (enqueue_in_store id spec)

  unfoldable pub claim_next :
      Clock
      → ℕ
      → Text
      → ℕ
      → ℤ
      → List JobType
      → Method (Transaction Value) JobRepositoryError (Option (JobLease Value))
  claim_next c token owner now lease_for allowed =
      on_jobs (claim_next_in_store c token owner now lease_for allowed)

  unfoldable pub renew :
      Clock → ℕ → Text → ℕ → ℕ → ℤ → Method (Transaction Value) JobRepositoryError (Job Value)
  renew c id owner token now lease_for = on_jobs (heartbeat_in_store c id owner token now lease_for)

  -- `none` is the panic of the recovery loop.
  unfoldable pub recover_expired :
      ℕ
      → ℕ
      → Transaction Value
      → Option (Transaction Value × Result JobRepositoryError (List (Job Value)))
  recover_expired now limit tx =
      if tx.guard
      then (elim (recover_expired_in_store now limit tx.shared) [
        | none ↦ none
        | some (after, recovered) ↦ some (record tx { shared = after }, ok recovered)
      ])
      else some (tx, err storage)

  -- `apply_outcome`, on the map that the transaction's methods change.
  unfoldable pub outcome_in_store : JobOutcome → Method (Store Value) JobRepositoryError (Job Value)
  outcome_in_store (deferred_outcome id owner token now resume_at) =
      defer_in_store id owner token now resume_at
  outcome_in_store (succeeded_outcome id owner token now) = succeed_in_store id owner token now
  outcome_in_store (retry_outcome id owner token now retry_at error) =
      retry_in_store id owner token now retry_at error
  outcome_in_store (failed_outcome id owner token now error) =
      fail_in_store id owner token now error
  outcome_in_store (cancelled_outcome id now reason) = cancel_in_store id now reason

  unfoldable pub apply_outcome :
      JobOutcome → Method (Transaction Value) JobRepositoryError (Job Value)
  unfolding outcome_in_store
  apply_outcome outcome = on_jobs (outcome_in_store outcome)

  unfoldable pub commit : Transaction Value → Transaction Value
  commit tx = record tx { committed = true; guard = false }

  -- `Drop`: what the mutex guards once the transaction is gone.
  unfoldable pub drop : Transaction Value → Store Value
  drop tx = if not tx.committed && tx.guard then tx.backup else tx.shared
