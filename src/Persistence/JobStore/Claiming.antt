-- ===== src/Persistence/JobStore/Claiming.antt =====
-- Claiming the next job, `claim_next_in_store` of
-- src/persistence/repositories/job_repository.rs.
use werrss.Common.{
  ℕ, ℤ, ◌≤◌, ◌<◌, ◌≡◌, refl, ◌≢◌, ◌⊎◌, inl, inr, Option, none, some, List, true, false, All, Text,
  Result, ok, err, is_blank, Option-cases, Result-cases, ap, arith, sym, ◌∙◌, subst,
}
use werrss.Domain.Job.{Job, JobType, Clock, u32_max, running, claim, lease_expiry, validate_owner}
use werrss.Domain.Job.Validity.{IsValid}
use werrss.Domain.Job.History.{Keeps, step-Keeps, step, claims}
use werrss.Domain.Job.Lifecycle.{claim_sets}
use werrss.Persistence.JobStore.Table.{JobRepositoryError, domain, Store, lookup, insert}
use werrss.Persistence.JobStore.Operations.{
  JobLease, is_claimable, candidate, on_job, claim_next_in_store,
}
use werrss.Persistence.JobStore.Maps.{lookup-insert, All-lookup}
use werrss.Persistence.JobStore.Invariant.{WellFormed, WellFormed-lookup}
use werrss.Persistence.JobStore.History.{claim_next-WellFormed}
use werrss.Persistence.JobStore.Selection.{NotAfter, Selects, candidate-Selects}

abbrev Claimed : Type 0 → Type 0
Claimed Value = Store Value × Result JobRepositoryError (Option (JobLease Value))

module _ {Value : Type 0} where
  claim_accepts :
      (c : Clock) (token : ℕ) (owner : Text) (now : ℕ) (lease_for : ℤ) (until : ℕ)
      (allowed : List JobType) (j : Job Value)
      → is_blank owner ≡ false
      → lease_expiry c now lease_for ≡ ok until
      → is_claimable now allowed j ≡ true
      → j.claim_count < u32_max
      → (claim c token owner now lease_for j).1 ≡ ok token
  unfolding claim validate_owner is_claimable
  claim_accepts c token owner now lease_for until allowed j b l h n = ground arith

  pub claim-Keeps :
      (c : Clock) (token : ℕ) (owner : Text) (now : ℕ) (lease_for : ℤ) (j : Job Value)
      → j.max_attempts ≤ u32_max
      → IsValid j
      → Keeps j (claim c token owner now lease_for j).0
  unfolding step
  claim-Keeps c token owner now lease_for j u v =
      step-Keeps c (claims token owner now lease_for) j u v

  -- The lease that a claim of `j` at `id` hands out.
  pub record Leased (token : ℕ) (owner : Text) (until id : ℕ) (jobs : Store Value) (k : Job Value)
      (result : Store Value × Result JobRepositoryError (Option (JobLease Value))) : Type 0 where
    pub returned : result ≡ (insert id k jobs, ok (some (record { job = k; token = token })))
    pub runs : k.status ≡ running
    pub owned : k.lease_owner ≡ some owner
    pub fenced : k.lease_token ≡ some token
    pub bounded : k.lease_until ≡ some until
    pub named : k.id ≡ id

  claim_at :
      (c : Clock) (token : ℕ) (owner : Text) (now : ℕ) (lease_for : ℤ) (until : ℕ)
      (allowed : List JobType) (jobs : Store Value) (id : ℕ) (j : Job Value)
      → WellFormed jobs
      → is_blank owner ≡ false
      → lease_expiry c now lease_for ≡ ok until
      → j.claim_count < u32_max
      → candidate now allowed jobs ≡ some (id, j)
      → lookup id jobs ≡ some j
      → is_claimable now allowed j ≡ true
      → Leased token owner until id jobs
          (claim c token owner now lease_for j).0
          (claim_next_in_store c token owner now lease_for allowed jobs)
  unfolding claim_next_in_store on_job
  claim_at c token owner now lease_for until allowed jobs id j w b l n picked here good =
      let accepted = claim_accepts c token owner now lease_for until allowed j b l good n in
      let e = WellFormed-lookup id j jobs w here in
      let sets = claim_sets c token owner now lease_for until j l accepted in
      record {
        returned = rw (picked, here, accepted, claim_next_in_store, on_job) refl;
        runs = sets.1;
        owned = sets.2;
        fenced = sets.3;
        bounded = sets.4;
        named = (claim-Keeps c token owner now lease_for j e.limit e.valid).same_id ∙ e.named;
      }

  -- On a well-formed map, with a good owner and lease and no claim counter at its end, a claim
  -- either finds every job unclaimable and changes nothing, or leases to the caller an entry that
  -- is claimable and that comes after no other claimable job, and writes just that job back.
  pub claim_next-first :
      (c : Clock) (token : ℕ) (owner : Text) (now : ℕ) (lease_for : ℤ) (until : ℕ)
      (allowed : List JobType) (jobs : Store Value)
      → WellFormed jobs
      → is_blank owner ≡ false
      → lease_expiry c now lease_for ≡ ok until
      → All (λ e. e.1.claim_count < u32_max) jobs
      → let result = claim_next_in_store c token owner now lease_for allowed jobs in
        (All (λ e. is_claimable now allowed e.1 ≡ false) jobs × (result ≡ (jobs, ok none)))
        ⊎ ((id : ℕ) × (j : Job Value) × (k : Job Value) × (lookup id jobs ≡ some j)
            × (is_claimable now allowed j ≡ true)
            × All (λ e. is_claimable now allowed e.1 ≡ true → NotAfter j e.1) jobs
            × Leased token owner until id jobs k result)
  unfolding claim_next_in_store
  claim_next-first c token owner now lease_for until allowed jobs w b l n =
      elim (Option-cases (candidate now allowed jobs)) [
        | inl absent ↦ inl (
          subst (Selects now allowed jobs) absent (candidate-Selects now allowed jobs w),
          rw (absent, claim_next_in_store) refl,
        )
        | inr ((id, j), picked) ↦
            let (here, good, least) =
              subst (Selects now allowed jobs) picked (candidate-Selects now allowed jobs w) in
            let below = All-lookup (λ e. e.1.claim_count < u32_max) id j jobs n here in
            inr (
              id,
              j,
              (claim c token owner now lease_for j).0,
              here,
              good,
              least,
              claim_at c token owner now lease_for until allowed jobs id j w b l below picked here
                  good,
            )
      ]

  claim_running :
      (c : Clock) (token : ℕ) (owner : Text) (now : ℕ) (lease_for : ℤ) (j : Job Value) {t : ℕ}
      → (claim c token owner now lease_for j).1 ≡ ok t
      → (claim c token owner now lease_for j).0.status ≡ running
  unfolding claim
  claim_running c token owner now lease_for j h = ground arith

  claim_returns :
      (c : Clock) (token : ℕ) (owner : Text) (now : ℕ) (lease_for : ℤ) (j : Job Value) {t : ℕ}
      → (claim c token owner now lease_for j).1 ≡ ok t
      → (claim c token owner now lease_for j).1 ≡ ok token
  unfolding claim
  claim_returns c token owner now lease_for j h = ground arith

  pub claimed_job :
      (c : Clock) (token : ℕ) (owner : Text) (now : ℕ) (lease_for : ℤ) (allowed : List JobType)
      (jobs after : Store Value) (lease : JobLease Value)
      → WellFormed jobs
      → claim_next_in_store c token owner now lease_for allowed jobs ≡ (after, ok (some lease))
      → (j : Job Value) × (lookup lease.job.id jobs ≡ some j)
        × (is_claimable now allowed j ≡ true)
        × (lookup lease.job.id after ≡ some lease.job)
        × (lease.job.status ≡ running)
        × (lease.job ≡ (claim c token owner now lease_for j).0)
        × ((claim c token owner now lease_for j).1 ≡ ok token)
        × (lease.token ≡ token)
  unfolding claim_next_in_store on_job
  claimed_job c token owner now lease_for allowed jobs after lease w h =
      elim (Option-cases (candidate now allowed jobs)) [
        | inl absent ↦
            let r : ◌≡◌ {A = Claimed Value} (jobs, ok none) (after, ok (some lease)) =
              rw (absent, claim_next_in_store) at h in
            absurd (cc)
        | inr ((id, j), picked) ↦
            let (here, good, least) =
              subst (Selects now allowed jobs) picked (candidate-Selects now allowed jobs w) in
            let entry = WellFormed-lookup id j jobs w here in
            let k : Job Value = (claim c token owner now lease_for j).0 in
            let at_id : k.id ≡ id =
              (claim-Keeps c token owner now lease_for j entry.limit entry.valid).same_id
              ∙ entry.named in
            elim (Result-cases (claim c token owner now lease_for j).1) [
              | inl (e, refused) ↦
                  let r : ◌≡◌ {A = Claimed Value} (insert id k jobs, err (domain e))
                      (after, ok (some lease)) =
                    rw (picked, here, refused, claim_next_in_store, on_job) at h in
                  absurd (cc)
              | inr (t, accepted) ↦
                  let lent : JobLease Value = record { job = k; token = t } in
                  let r : ◌≡◌ {A = Claimed Value} (insert id k jobs, ok (some lent))
                      (after, ok (some lease)) =
                    rw (picked, here, accepted, claim_next_in_store, on_job) at h in
                  let same : k ≡ lease.job = ground arith in
                  let wrote : insert id k jobs ≡ after = ground arith in
                  let id' : lease.job.id ≡ id = (sym (ap (λ (x : Job Value). x.id) same) ∙ at_id) in
                  (
                    j,
                    rw id' here,
                    good,
                    rw (id', ← wrote) (lookup-insert id id k jobs ∙ ground arith),
                    subst (λ (x : Job Value). x.status ≡ running) same
                        (claim_running c token owner now lease_for j accepted),
                    sym same,
                    claim_returns c token owner now lease_for j accepted,
                    ground (arith, claim_returns c token owner now lease_for j accepted),
                  )
            ]
      ]

  -- No job is leased twice without coming back in between: if two claims in a row, at any instants
  -- and by any owners, both lease a job of a well-formed map, they lease different jobs.
  pub claim_next_twice :
      (c : Clock) (token token' : ℕ) (owner owner' : Text) (now now' : ℕ) (lease_for lease_for' : ℤ)
      (allowed allowed' : List JobType) (jobs after final : Store Value)
      (first second : JobLease Value)
      → WellFormed jobs
      → claim_next_in_store c token owner now lease_for allowed jobs ≡ (after, ok (some first))
      → claim_next_in_store c token' owner' now' lease_for' allowed' after
        ≡ (final, ok (some second))
      → first.job.id ≢ second.job.id
  unfolding is_claimable
  claim_next_twice c token token' owner owner' now now' lease_for lease_for' allowed allowed' jobs
        after final first second w h h' e =
      let kept : WellFormed after =
        subst WellFormed (ap (λ r. r.0) h)
          (claim_next-WellFormed c token owner now lease_for allowed jobs w) in
      let (j, l, q, here, runs, made, taken, fence) =
        claimed_job c token owner now lease_for allowed jobs after first w h in
      let (j', l', q', here', runs', made', taken', fence') =
        claimed_job c token' owner' now' lease_for' allowed' after final second kept h' in
      let same : first.job ≡ j' = ground arith in absurd (ground arith)
