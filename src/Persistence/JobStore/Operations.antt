-- ===== src/Persistence/JobStore/Operations.antt =====
-- The operations of the in-memory job repository, `enqueue_in_store` to `recover_expired_in_store`
-- of src/persistence/repositories/job_repository.rs.
use werrss.Common.{
  ℕ, ℤ, compareℤ, compare, Ordering, Bool, true, false, ◌&&◌, Option, none, some, List, [], ◌∷◌,
  Text, text_eq, Result, ok, err, Method, ltb, leb, ◌==◌, if◌then◌else◌, filter, take,
}
use werrss.Domain.Job.{
  Job, JobType, JobError, NewJob, Clock, is_active, is_waiting, is_running, new, claim, defer,
  heartbeat, succeed, retry, fail, cancel, recover_expired_lease, source_sync, feed_rebuild,
  article_backfill, credential_refresh, asset_repair, asset_refresh,
}
use werrss.Persistence.JobStore.Table.{JobRepositoryError, domain, not_found, Store, lookup, insert}

pub data EnqueueResult (Value : Type 0) : Type 0 where
  inserted : Job Value → EnqueueResult Value
  already_active : (job_id : ℕ) → EnqueueResult Value

pub record JobLease (Value : Type 0) : Type 0 where
  pub job : Job Value
  pub token : ℕ

-- The derived equality of job types, and `contains` on a slice of them.
abbrev type_index : JobType → ℕ
type_index source_sync = 0
type_index feed_rebuild = 1
type_index article_backfill = 2
type_index credential_refresh = 3
type_index asset_repair = 4
type_index asset_refresh = 5

unfoldable pub contains : List JobType → JobType → Bool
contains [] t = false
contains (u ∷ us) t = if type_index u == type_index t then true else contains us t

-- `Ordering::then_with`.
abbrev pub then_with : Ordering → Ordering → Ordering
then_with Ordering.eq o = o
then_with Ordering.lt o = Ordering.lt
then_with Ordering.gt o = Ordering.gt

module _ {Value : Type 0} where
  unfoldable pub claim_order : Job Value → Job Value → Ordering
  claim_order left right = then_with (compareℤ right.priority left.priority) (
      then_with (compare left.run_after right.run_after)
        (then_with (compare left.created_at right.created_at) (compare left.id right.id)))

  abbrev pub is_active_key : Text → ℕ × Job Value → Bool
  is_active_key key (k, j) = is_active j.status && text_eq j.dedupe_key key

  -- `Iterator::find`.
  unfoldable pub find : (ℕ × Job Value → Bool) → Store Value → Option (ℕ × Job Value)
  find p [] = none
  find p (e ∷ jobs) = if p e then some e else find p jobs

  -- `id` is the fresh UUID that `Job::new` draws.
  unfoldable pub enqueue_in_store :
      ℕ → NewJob Value → Method (Store Value) JobRepositoryError (EnqueueResult Value)
  enqueue_in_store id spec jobs = elim (find (is_active_key spec.dedupe_key) jobs) [
    | some (k, existing) ↦ (jobs, ok (already_active existing.id))
    | none ↦ elim (new id spec) [
      | ok job ↦ (insert job.id job jobs, ok (inserted job))
      | err e ↦ (jobs, err (domain e))
    ]
  ]

  -- `get_mut`, a method of the job behind the reference, and a copy of the job after it.
  unfoldable pub on_job :
      {A : Type 0}
      → ℕ
      → Method (Job Value) JobError A
      → Method (Store Value) JobRepositoryError (Job Value × A)
  on_job id method jobs = elim (lookup id jobs) [
    | none ↦ (jobs, err (not_found id))
    | some j ↦
        let r = method j in
        (insert id r.0 jobs, elim (r.1) [ ok a ↦ ok (r.0, a) | err e ↦ err (domain e) ])
  ]

  abbrev pub job_of :
      {A : Type 0}
      → Result JobRepositoryError (Job Value × A)
      → Result JobRepositoryError (Job Value)
  job_of (ok (j, a)) = ok j
  job_of (err e) = err e

  unfoldable pub is_claimable : ℕ → List JobType → Job Value → Bool
  is_claimable now allowed j =
      is_waiting j.status
      && (leb j.run_after now
          && (contains allowed j.job_type && ltb j.failure_count j.max_attempts))

  -- `Iterator::min_by`: of equal entries the first is kept.
  unfoldable pub min_from : ℕ × Job Value → Store Value → ℕ × Job Value
  min_from best [] = best
  min_from best (e ∷ jobs) =
      min_from (elim (claim_order best.1 e.1) [ Ordering.gt ↦ e | _ ↦ best ]) jobs

  unfoldable pub candidate : ℕ → List JobType → Store Value → Option (ℕ × Job Value)
  unfolding min_from
  candidate now allowed jobs = elim (filter (λ e. is_claimable now allowed e.1) jobs) [
    | [] ↦ none
    | e ∷ rest ↦ some (min_from e rest)
  ]

  unfoldable pub claim_next_in_store :
      Clock
      → ℕ
      → Text
      → ℕ
      → ℤ
      → List JobType
      → Method (Store Value) JobRepositoryError (Option (JobLease Value))
  claim_next_in_store c token owner now lease_for allowed jobs = elim (candidate now allowed jobs) [
    | none ↦ (jobs, ok none)
    | some (id, j) ↦
        let r = on_job id (claim c token owner now lease_for) jobs in
        (
          r.0,
          elim (r.1) [ ok (job, t) ↦ ok (some (record { job = job; token = t })) | err e ↦ err e ],
        )
  ]

  unfoldable pub heartbeat_in_store :
      Clock → ℕ → Text → ℕ → ℕ → ℤ → Method (Store Value) JobRepositoryError (Job Value)
  heartbeat_in_store c id owner token now lease_for jobs =
      let r = on_job id (heartbeat c owner token now lease_for) jobs in (r.0, job_of r.1)

  unfoldable pub defer_in_store :
      ℕ → Text → ℕ → ℕ → ℕ → Method (Store Value) JobRepositoryError (Job Value)
  defer_in_store id owner token now resume_at jobs =
      let r = on_job id (defer owner token now resume_at) jobs in (r.0, job_of r.1)

  unfoldable pub succeed_in_store :
      ℕ → Text → ℕ → ℕ → Method (Store Value) JobRepositoryError (Job Value)
  succeed_in_store id owner token now jobs =
      let r = on_job id (succeed owner token now) jobs in (r.0, job_of r.1)

  unfoldable pub retry_in_store :
      ℕ → Text → ℕ → ℕ → ℕ → Text → Method (Store Value) JobRepositoryError (Job Value)
  retry_in_store id owner token now retry_at error jobs =
      let r = on_job id (retry owner token now retry_at error) jobs in (r.0, job_of r.1)

  unfoldable pub fail_in_store :
      ℕ → Text → ℕ → ℕ → Text → Method (Store Value) JobRepositoryError (Job Value)
  fail_in_store id owner token now error jobs =
      let r = on_job id (fail owner token now error) jobs in (r.0, job_of r.1)

  unfoldable pub cancel_in_store :
      ℕ → ℕ → Text → Method (Store Value) JobRepositoryError (Job Value)
  cancel_in_store id now reason jobs =
      let r = on_job id (cancel now reason) jobs in (r.0, job_of r.1)

  -- The running jobs whose lease is over, with the instant at which it ended.
  abbrev pub expired_at : ℕ → Job Value → Option ℕ
  expired_at now j =
      if is_running j.status
      then (elim (j.lease_until) [
        | none ↦ none
        | some until ↦ if leb until now then some until else none
      ])
      else none

  unfoldable pub expired_candidates : ℕ → Store Value → List (ℕ × ℕ)
  expired_candidates now [] = []
  expired_candidates now ((k, j) ∷ jobs) = elim (expired_at now j) [
    | none ↦ expired_candidates now jobs
    | some until ↦ (k, until) ∷ expired_candidates now jobs
  ]

-- `sort_by_key`, which is stable.
unfoldable pub insert_by_key : ℕ × ℕ → List (ℕ × ℕ) → List (ℕ × ℕ)
insert_by_key x [] = x ∷ []
insert_by_key x (y ∷ ys) = if leb x.1 y.1 then x ∷ y ∷ ys else y ∷ insert_by_key x ys

unfoldable pub sort_by_key : List (ℕ × ℕ) → List (ℕ × ℕ)
unfolding insert_by_key
sort_by_key [] = []
sort_by_key (x ∷ xs) = insert_by_key x (sort_by_key xs)

module _ {Value : Type 0} where
  abbrev pub keep_if : Bool → Job Value → List (Job Value) → List (Job Value)
  keep_if true j js = j ∷ js
  keep_if false j js = js

  -- The loop over the candidates; `none` is the panic of its `expect`.
  unfoldable pub recover_each :
      ℕ → List (ℕ × ℕ) → Store Value → Option (Store Value × List (Job Value))
  recover_each now [] jobs = some (jobs, [])
  recover_each now ((id, until) ∷ rest) jobs = elim (lookup id jobs) [
    | none ↦ none
    | some j ↦
        let r = recover_expired_lease now j in
        elim (recover_each now rest (insert id r.0 jobs)) [
          | none ↦ none
          | some (after, recovered) ↦ some (after, keep_if r.1 r.0 recovered)
        ]
  ]

  unfoldable pub recover_expired_in_store :
      ℕ → ℕ → Store Value → Option (Store Value × List (Job Value))
  unfolding sort_by_key
  recover_expired_in_store now limit jobs =
      recover_each now (take limit (sort_by_key (expired_candidates now jobs))) jobs
