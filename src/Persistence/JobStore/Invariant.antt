-- ===== src/Persistence/JobStore/Invariant.antt =====
-- The invariant of the in-memory job repository: every entry is a valid job under its own
-- identifier, identifiers differ, and no two active jobs have one deduplication key.
use werrss.Common.{
  ℕ, ◌≤◌, ◌≡◌, ◌≢◌, none, some, [], ◌∷◌, true, All, Text, Method, ok, Option-cases, Result-cases,
  inl, inr, arith, Bool-cases, ◌==◌, subst, text_eq_iff, sym, ◌∙◌,
}
use werrss.Domain.Job.{Job, JobError, NewJob, u32_max, is_active, new}
use werrss.Domain.Job.Validity.{IsValid, new-IsValid}
use werrss.Domain.Job.History.{Keeps}
use werrss.Persistence.JobStore.Table.{Store, lookup, insert}
use werrss.Persistence.JobStore.Operations.{on_job, enqueue_in_store, find, is_active_key}
use werrss.Persistence.JobStore.Maps.{All-lookup, All-update, All-add}

module _ {Value : Type 0} where
  pub record IsEntry (e : ℕ × Job Value) : Type 0 where
    pub named : e.1.id ≡ e.0
    pub valid : IsValid e.1
    pub limit : e.1.max_attempts ≤ u32_max

  -- Two entries have different identifiers, and not one key while both are active.
  pub record IsApart (e f : ℕ × Job Value) : Type 0 where
    pub distinct : f.0 ≢ e.0
    pub unique :
        is_active e.1.status ≡ true → is_active f.1.status ≡ true → f.1.dedupe_key ≢ e.1.dedupe_key

  abbrev pub WellFormed : Store Value → Type 0
  WellFormed [] = Unit {0}
  WellFormed (e ∷ jobs) = IsEntry e × All (IsApart e) jobs × WellFormed jobs

  pub WellFormed-lookup :
      (id : ℕ) (j : Job Value) (jobs : Store Value)
      → WellFormed jobs
      → lookup id jobs ≡ some j
      → IsEntry (id, j)
  WellFormed-lookup id j jobs w h = All-lookup IsEntry id j jobs (entries jobs w) h
    where
      entries : (jobs : Store Value) → WellFormed jobs → All IsEntry jobs
      entries [] w = tt
      entries (e ∷ jobs) w = (w.0, entries jobs w.2)

  Keeps-IsEntry : (id : ℕ) (j k : Job Value) → Keeps j k → IsEntry (id, j) → IsEntry (id, k)
  Keeps-IsEntry id j k p e = record { named = ground arith; valid = p.valid; limit = ground arith }

  Keeps-IsApart :
      (e : ℕ × Job Value) (id : ℕ) (j k : Job Value)
      → Keeps j k
      → IsApart e (id, j)
      → IsApart e (id, k)
  Keeps-IsApart e id j k p a = record {
    distinct = a.distinct;
    unique = λ x y q. a.unique x (p.awake y) (sym p.same_key ∙ q);
  }

  Keeps-Apart-All :
      (id : ℕ) (j k : Job Value) (jobs : Store Value)
      → Keeps j k
      → All (IsApart (id, j)) jobs
      → All (IsApart (id, k)) jobs
  Keeps-Apart-All id j k [] p a = tt
  Keeps-Apart-All id j k (f ∷ jobs) p a = (
    record { distinct = a.0.distinct; unique = λ x y q. a.0.unique (p.awake x) y (q ∙ p.same_key) },
    Keeps-Apart-All id j k jobs p a.1,
  )

  -- A write of what a method of `Job` may leave behind keeps the map well formed.
  pub WellFormed-update :
      (id : ℕ) (j k : Job Value) (jobs : Store Value)
      → lookup id jobs ≡ some j
      → Keeps j k
      → WellFormed jobs
      → WellFormed (insert id k jobs)
  unfolding lookup insert
  WellFormed-update id j k [] h p w = absurd (cc)
  WellFormed-update id j k ((i, x) ∷ jobs) h p w = elim (Bool-cases (i == id)) [
    | inl hit ↦
        let e : j ≡ x = ground arith in
        let q : Keeps x k = subst (λ y. Keeps y k) e p in
        rw hit (Keeps-IsEntry i x k q w.0, Keeps-Apart-All i x k jobs q w.1, w.2)
    | inr miss ↦
        let rest : lookup id jobs ≡ some j = ground arith in
        rw miss (
          w.0,
          All-update (IsApart (i, x)) id j k jobs rest (Keeps-IsApart (i, x) id j k p) w.1,
          WellFormed-update id j k jobs rest p w.2,
        )
  ]

  -- An operation on one job keeps the map well formed, whether or not it succeeds.
  pub on_job-WellFormed :
      {A : Type 0} (id : ℕ) (method : Method (Job Value) JobError A) (jobs : Store Value)
      → ((j : Job Value) → j.max_attempts ≤ u32_max → IsValid j → Keeps j (method j).0)
      → WellFormed jobs
      → WellFormed (on_job id method jobs).0
  unfolding on_job
  on_job-WellFormed id method jobs keeps w = elim (Option-cases (lookup id jobs)) [
    | inl absent ↦ rw (absent, on_job) w
    | inr (j, found) ↦
        let e : IsEntry (id, j) = WellFormed-lookup id j jobs w found in
        rw (found, on_job)
          (WellFormed-update id j (method j).0 jobs found (keeps j e.limit e.valid) w)
  ]

  find-none :
      (key : Text) (jobs : Store Value) (k : Job Value) (id : ℕ)
      → find (is_active_key key) jobs ≡ none
      → lookup id jobs ≡ none
      → k.dedupe_key ≡ key
      → All (λ e. IsApart e (id, k)) jobs
  unfolding find lookup
  find-none key [] k id h l q = tt
  find-none key ((i, x) ∷ jobs) k id h l q = (
    record {
      distinct = λ r. ground arith;
      unique = λ a b r. ground (arith, text_eq_iff x.dedupe_key key);
    },
    find-none key jobs k id (ground arith) (ground arith) q,
  )

  WellFormed-add :
      (id : ℕ) (k : Job Value) (jobs : Store Value)
      → lookup id jobs ≡ none
      → IsEntry (id, k)
      → All (λ e. IsApart e (id, k)) jobs
      → WellFormed jobs
      → WellFormed (insert id k jobs)
  unfolding lookup insert
  WellFormed-add id k [] l e a w = (e, tt, tt)
  WellFormed-add id k ((i, x) ∷ jobs) l e a w = elim (Bool-cases (i == id)) [
    | inl hit ↦ absurd (ground arith)
    | inr miss ↦
        let rest : lookup id jobs ≡ none = ground arith in
        rw miss (
          w.0,
          All-add (IsApart (i, x)) id k jobs rest a.0 w.1,
          WellFormed-add id k jobs rest e a.1 w.2,
        )
  ]

  new_fields :
      (id : ℕ) (spec : NewJob Value) (j : Job Value)
      → new id spec ≡ ok j
      → (j.id ≡ id) × (j.dedupe_key ≡ spec.dedupe_key) × (j.max_attempts ≡ spec.max_attempts)
  unfolding new
  new_fields id spec j h = ground arith

  -- Enqueuing under an identifier that is not in use keeps the map well formed.
  pub enqueue-WellFormed :
      (id : ℕ) (spec : NewJob Value) (jobs : Store Value)
      → lookup id jobs ≡ none
      → spec.max_attempts ≤ u32_max
      → WellFormed jobs
      → WellFormed (enqueue_in_store id spec jobs).0
  unfolding enqueue_in_store
  enqueue-WellFormed id spec jobs l u w =
      elim (Option-cases (find (is_active_key spec.dedupe_key) jobs)) [
        | inr ((k, j), found) ↦ rw (found, enqueue_in_store) w
        | inl absent ↦ elim (Result-cases (new id spec)) [
          | inl (e, bad) ↦ rw (absent, bad, enqueue_in_store) w
          | inr (j, made) ↦
              let (i, d, m) = new_fields id spec j made in
              rw (absent, made, enqueue_in_store)
                (subst (λ n. WellFormed (insert n j jobs)) (sym i)
                  (WellFormed-add id j jobs l
                    (record {
                      named = i;
                      valid = new-IsValid id spec made;
                      limit = omega (arith, m);
                    })
                    (find-none spec.dedupe_key jobs j id absent l d) w))
        ]
      ]
