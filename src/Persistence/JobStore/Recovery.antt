-- ===== src/Persistence/JobStore/Recovery.antt =====
-- Recovery of expired leases, `recover_expired_in_store` of
-- src/persistence/repositories/job_repository.rs.
use werrss.Common.{
  ℕ, ◌≤◌, ◌≡◌, refl, none, some, List, [], ◌∷◌, Bool, true, false, if◌then◌else◌, length, take,
  is_some, Option-cases, inl, inr, arith, sym, ◌∙◌, ap,
}
use mathlib.Core.Option
use werrss.Domain.Job.{Job, u32_max, recover_expired_lease}
use werrss.Domain.Job.Validity.{IsValid}
use werrss.Domain.Job.History.{Keeps, step-Keeps, step, recovers}
use werrss.Persistence.JobStore.Table.{Store, lookup, insert}
use werrss.Persistence.JobStore.Operations.{
  expired_at, expired_candidates, sort_by_key, recover_each, keep_if, recover_expired_in_store,
}
use werrss.Persistence.JobStore.Maps.{lookup-insert}
use werrss.Persistence.JobStore.Batches.{
  member, member-sort_by_key, length-sort_by_key, take-all, length-take_le, member-take,
}
use werrss.Persistence.JobStore.Invariant.{WellFormed, WellFormed-update, WellFormed-lookup}

module _ {Value : Type 0} where
  abbrev pub recovered_job : ℕ → Job Value → Job Value
  recovered_job now j = (recover_expired_lease now j).0

  recovered_job_idem :
      (now : ℕ) (j : Job Value) → recovered_job now (recovered_job now j) ≡ recovered_job now j
  unfolding recover_expired_lease
  recovered_job_idem now j = ground arith

  recovered_job-not_expired :
      (now : ℕ) (j : Job Value) → expired_at now (recovered_job now j) ≡ none
  unfolding recover_expired_lease
  recovered_job-not_expired now j = ground arith

  member-expired_candidates :
      (id now : ℕ) (jobs : Store Value)
      → member id (expired_candidates now jobs) ≡ true
      → is_some (lookup id jobs) ≡ true
  unfolding expired_candidates lookup
  member-expired_candidates id now [] h = absurd (cc)
  member-expired_candidates id now ((k, j) ∷ jobs) h =
      ground (arith, member-expired_candidates id now jobs)

  expired-member :
      (id now : ℕ) (j : Job Value) (jobs : Store Value)
      → lookup id jobs ≡ some j
      → is_some (expired_at now j) ≡ true
      → member id (expired_candidates now jobs) ≡ true
  unfolding expired_candidates lookup
  expired-member id now j [] h e = absurd (cc)
  expired-member id now j ((k, x) ∷ jobs) h e = ground (arith, expired-member id now j jobs)

  recover-Keeps :
      (now : ℕ) (j : Job Value)
      → j.max_attempts ≤ u32_max
      → IsValid j
      → Keeps j (recovered_job now j)
  unfolding step
  recover-Keeps now j u v =
      step-Keeps (record { checked_add_signed = λ t d. none }) (recovers now) j u v

  -- What the loop leaves behind, entry by entry.
  abbrev pub Recovers : ℕ → List (ℕ × ℕ) → Store Value → Store Value → Type 0
  Recovers now chosen jobs after =
      (id : ℕ)
      → lookup id after ≡ (
          if member id chosen
          then Option.map (recovered_job now) (lookup id jobs)
          else lookup id jobs)

  recover_each_lem :
      (now : ℕ) (chosen : List (ℕ × ℕ)) (jobs : Store Value)
      → ((id : ℕ) → member id chosen ≡ true → is_some (lookup id jobs) ≡ true)
      → WellFormed jobs
      → (after : Store Value) × (recovered : List (Job Value)) × (recover_each now chosen jobs
          ≡ some (after, recovered))
        × Recovers now chosen jobs after
        × (length recovered ≤ length chosen)
        × WellFormed after
  unfolding recover_each
  recover_each_lem now [] jobs present w = (jobs, [], refl, λ id. refl, omega arith, w)
  recover_each_lem now ((i, until) ∷ rest) jobs present w = elim (Option-cases (lookup i jobs)) [
    | inl absent ↦ absurd (ground (arith, present i))
    | inr (j, found) ↦
        let e = WellFormed-lookup i j jobs w found in
        let keeps = recover-Keeps now j e.limit e.valid in
        let next : Store Value = insert i (recovered_job now j) jobs in
        let (after, recovered, ran, entries, short, w') =
          recover_each_lem now rest next
            (λ id m. ground (arith, lookup-insert i id (recovered_job now j) jobs, present id))
            (WellFormed-update i j (recovered_job now j) jobs found keeps w) in
        (
          after,
          keep_if (recover_expired_lease now j).1 (recovered_job now j) recovered,
          rw (found, ran, recover_each) refl,
          λ id. ground (
            arith,
            entries id,
            lookup-insert i id (recovered_job now j) jobs,
            recovered_job_idem now j,
          ),
          ground arith,
          w',
        )
  ]

  candidates-present :
      (id now limit : ℕ) (jobs : Store Value)
      → member id (take limit (sort_by_key (expired_candidates now jobs))) ≡ true
      → is_some (lookup id jobs) ≡ true
  candidates-present id now limit jobs m = member-expired_candidates id now jobs (
      sym (member-sort_by_key id (expired_candidates now jobs))
      ∙ member-take id limit (sort_by_key (expired_candidates now jobs)) m)

  pub recover_expired-Recovers :
      (now limit : ℕ) (jobs : Store Value)
      → WellFormed jobs
      → (after : Store Value) × (recovered : List (Job Value)) × (recover_expired_in_store now limit
            jobs
          ≡ some (after, recovered))
        × Recovers now (take limit (sort_by_key (expired_candidates now jobs))) jobs after
        × (length recovered ≤ limit)
        × WellFormed after
  unfolding recover_expired_in_store
  recover_expired-Recovers now limit jobs w =
      let chosen = take limit (sort_by_key (expired_candidates now jobs)) in
      let (after, recovered, ran, entries, short, w') =
        recover_each_lem now chosen jobs (λ id m. candidates-present id now limit jobs m) w in
      (
        after,
        recovered,
        ran,
        entries,
        omega (arith, length-take_le limit (sort_by_key (expired_candidates now jobs))),
        w',
      )

  not_expired :
      (now : ℕ) (j k : Job Value) (chosen : Bool)
      → (is_some (expired_at now k) ≡ true → chosen ≡ true)
      → some j ≡ (if chosen then Option.map (recovered_job now) (some k) else some k)
      → expired_at now j ≡ none
  not_expired now j k true f e = ground (arith, recovered_job-not_expired now k)
  not_expired now j k false f e = elim (Option-cases (expired_at now k)) [
    | inl fresh ↦ ground arith
    | inr (u, over) ↦ absurd (cc (f (rw over)))
  ]

  -- When the map has no more expired leases than the limit, none is left after recovery.
  pub recover_expired_complete :
      (now limit : ℕ) (jobs after : Store Value) {recovered : List (Job Value)}
      → WellFormed jobs
      → length (expired_candidates now jobs) ≤ limit
      → recover_expired_in_store now limit jobs ≡ some (after, recovered)
      → (id : ℕ) (j : Job Value) → lookup id after ≡ some j
      → expired_at now j ≡ none
  recover_expired_complete now limit jobs after w few ran id j found =
      let (final, r, ran', entries, short, w') = recover_expired-Recovers now limit jobs w in
      let candidates = expired_candidates now jobs in
      let same : final ≡ after = cc in
      let all : member id (take limit (sort_by_key candidates)) ≡ member id candidates =
        (ap (member id)
            (take-all limit (sort_by_key candidates) (omega (arith, length-sort_by_key candidates)))
          ∙ member-sort_by_key id candidates) in
      let entry : some j ≡ (
          if member id candidates
          then Option.map (recovered_job now) (lookup id jobs)
          else lookup id jobs) =
        cc (entries id) in
      elim (Option-cases (lookup id jobs)) [
        | inl absent ↦ absurd (ground arith)
        | inr (k, here) ↦
            not_expired now j k (member id candidates) (λ e. expired-member id now k jobs here e)
              (rw here at entry)
      ]
