-- ===== src/Persistence/JobStore/Rollback.antt =====
-- Transactions of the in-memory job repository: what is left when one is dropped,
-- src/persistence/repositories/job_repository.rs.
use werrss.Common.{
  ◌≡◌, refl, Option, none, some, List, [], ◌∷◌, true, false, Option-cases, inl, inr, Result,
}
use werrss.Domain.Job.{Job, Clock}
use werrss.Persistence.JobStore.Table.{Store, JobRepositoryError}
use werrss.Persistence.JobStore.Operations.{recover_expired_in_store}
use werrss.Persistence.JobStore.Isolation.{
  Transaction, begin, on_jobs, enqueue, claim_next, renew, recover_expired, apply_outcome, commit,
  drop,
}
use werrss.Persistence.JobStore.History.{
  StoreCall, enqueues, claims_next, renews, outcomes, recovers_expired, store_step, store_run,
}

module _ {Value : Type 0} where
  abbrev tx_or :
      Transaction Value
      → Option (Transaction Value × Result JobRepositoryError (List (Job Value)))
      → Transaction Value
  tx_or tx none = tx
  tx_or tx (some (after, r)) = after

  -- The transaction after one of its operations.
  unfoldable pub tx_step : Clock → StoreCall Value → Transaction Value → Transaction Value
  tx_step c (enqueues id spec) tx = (enqueue id spec tx).0
  tx_step c (claims_next token owner now lease_for allowed) tx =
      (claim_next c token owner now lease_for allowed tx).0
  tx_step c (renews id owner token now lease_for) tx = (renew c id owner token now lease_for tx).0
  tx_step c (outcomes outcome) tx = (apply_outcome outcome tx).0
  tx_step c (recovers_expired now limit) tx = tx_or tx (recover_expired now limit tx)

  unfoldable pub tx_run : Clock → List (StoreCall Value) → Transaction Value → Transaction Value
  tx_run c [] tx = tx
  tx_run c (x ∷ xs) tx = tx_run c xs (tx_step c x tx)

  -- An open transaction over `jobs` that began with `backup`.
  abbrev opened : Store Value → Store Value → Transaction Value
  opened backup jobs = record { shared = jobs; guard = true; backup = backup; committed = false }

  tx_step-store_step :
      (c : Clock) (x : StoreCall Value) (backup jobs : Store Value)
      → tx_step c x (opened backup jobs) ≡ opened backup (store_step c x jobs)
  unfolding tx_step store_step enqueue claim_next renew apply_outcome recover_expired on_jobs
  tx_step-store_step c (recovers_expired now limit) backup jobs =
      elim (Option-cases (recover_expired_in_store now limit jobs)) [
        | inl panic ↦ rw panic refl
        | inr ((after, recovered), ran) ↦ rw ran refl
      ]
  tx_step-store_step c (enqueues id spec) backup jobs = refl
  tx_step-store_step c (claims_next token owner now lease_for allowed) backup jobs = refl
  tx_step-store_step c (renews id owner token now lease_for) backup jobs = refl
  tx_step-store_step c (outcomes outcome) backup jobs = refl

  tx_run-store_run :
      (c : Clock) (xs : List (StoreCall Value)) (backup jobs : Store Value)
      → tx_run c xs (opened backup jobs) ≡ opened backup (store_run c xs jobs)
  unfolding tx_run store_run
  tx_run-store_run c [] backup jobs = refl
  tx_run-store_run c (x ∷ xs) backup jobs =
      rw (tx_step-store_step c x backup jobs) (tx_run-store_run c xs backup (store_step c x jobs))

  -- A transaction is all or nothing: whatever operations it ran, dropped before a commit it leaves
  -- the map as it began, and committed it leaves what the operations leave outside a transaction.
  pub transaction_atomic :
      (c : Clock) (xs : List (StoreCall Value)) (jobs : Store Value)
      → (drop (tx_run c xs (begin jobs)) ≡ jobs)
        × (drop (commit (tx_run c xs (begin jobs))) ≡ store_run c xs jobs)
  unfolding begin commit drop
  transaction_atomic c xs jobs =
      let same = tx_run-store_run c xs jobs jobs in (rw same refl, rw same refl)
