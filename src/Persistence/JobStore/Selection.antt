-- ===== src/Persistence/JobStore/Selection.antt =====
-- Which job `claim_next_in_store` of src/persistence/repositories/job_repository.rs selects.
use werrss.Common.{
  ℕ, ◌≡◌, refl, ◌≢◌, ◌⊎◌, inl, inr, Option, none, some, List, [], ◌∷◌, Bool, true, false, All,
  Ordering, filter, Bool-cases, arith, sym, ◌∙◌, ap, subst,
}
use werrss.Domain.Job.{Job, JobType}
use werrss.Persistence.JobStore.Table.{Store, lookup}
use werrss.Persistence.JobStore.Operations.{is_claimable, claim_order, min_from, candidate}
use werrss.Persistence.JobStore.Order.{IsOrder, claim_order-IsOrder}
use werrss.Persistence.JobStore.Invariant.{WellFormed, IsApart}

Ordering-cases : (o : Ordering) → (o ≡ Ordering.gt) ⊎ ((o ≡ Ordering.lt) ⊎ (o ≡ Ordering.eq))
Ordering-cases Ordering.lt = inr (inl refl)
Ordering-cases Ordering.eq = inr (inr refl)
Ordering-cases Ordering.gt = inl refl

module _ {Value : Type 0} where
  abbrev In : ℕ × Job Value → Store Value → Type 0
  In e [] = ⊥
  In e (x ∷ jobs) = (x ≡ e) ⊎ In e jobs

  In-filter :
      (p : ℕ × Job Value → Bool) (e : ℕ × Job Value) (jobs : Store Value)
      → In e (filter p jobs)
      → In e jobs × (p e ≡ true)
  unfolding filter
  In-filter p e [] m = absurd m
  In-filter p e (x ∷ jobs) m = elim (Bool-cases (p x)) [
    | inl pass ↦ elim (rw pass at m) [
      | inl here ↦ (inl here, subst (λ y. p y ≡ true) here pass)
      | inr there ↦ let (i, q) = In-filter p e jobs there in (inr i, q)
    ]
    | inr fail ↦ let (i, q) = In-filter p e jobs (rw fail at m) in (inr i, q)
  ]

  All-filter {κ} :
      (p : ℕ × Job Value → Bool) (P : ℕ × Job Value → Type κ) (jobs : Store Value)
      → All P (filter p jobs)
      → All (λ e. p e ≡ true → P e) jobs
  unfolding filter
  All-filter p P [] a = tt
  All-filter p P (x ∷ jobs) a = elim (Bool-cases (p x)) [
    | inl pass ↦
        let b : All P (x ∷ filter p jobs) = rw pass at a in (λ q. b.0, All-filter p P jobs b.1)
    | inr fail ↦
        let b : All P (filter p jobs) = rw fail at a in (λ q. absurd (cc), All-filter p P jobs b)
  ]

  filter_nil :
      (p : ℕ × Job Value → Bool) (jobs : Store Value)
      → filter p jobs ≡ []
      → All (λ e. p e ≡ false) jobs
  unfolding filter
  filter_nil p [] h = tt
  filter_nil p (x ∷ jobs) h = elim (Bool-cases (p x)) [
    | inl pass ↦ absurd (ground arith)
    | inr fail ↦ (fail, filter_nil p jobs (rw fail at h))
  ]

  -- `j` does not come after `k` in the claim order.
  abbrev pub NotAfter : Job Value → Job Value → Type 0
  NotAfter j k = claim_order j k ≢ Ordering.gt

  NotAfter-trans : (i j k : Job Value) → NotAfter i j → NotAfter j k → NotAfter i k
  NotAfter-trans i j k a b =
      let o = claim_order-IsOrder {Value = Value} in
      ground (arith, o.lt_trans i j k, o.trans_lt i j k, o.eq_trans i j k)

  NotAfter-self : (j : Job Value) → NotAfter j j
  NotAfter-self j h = let o = claim_order-IsOrder {Value = Value} in ground (arith, o.flip j j h)

  -- `r` is one of `best` and `jobs`, and none of these comes before it.
  abbrev IsFirst : ℕ × Job Value → Store Value → ℕ × Job Value → Type 0
  IsFirst best jobs r =
      ((best ≡ r) ⊎ In r jobs) × NotAfter r.1 best.1 × All (λ e. NotAfter r.1 e.1) jobs

  keep_best :
      (best e r : ℕ × Job Value) (jobs : Store Value)
      → NotAfter best.1 e.1
      → IsFirst best jobs r
      → IsFirst best (e ∷ jobs) r
  keep_best best e r jobs n (inl h, b, a) = (inl h, b, (NotAfter-trans r.1 best.1 e.1 b n, a))
  keep_best best e r jobs n (inr h, b, a) = (inr (inr h), b, (NotAfter-trans r.1 best.1 e.1 b n, a))

  take_new :
      (best e r : ℕ × Job Value) (jobs : Store Value)
      → NotAfter e.1 best.1
      → IsFirst e jobs r
      → IsFirst best (e ∷ jobs) r
  take_new best e r jobs n (m, b, a) = (inr m, NotAfter-trans r.1 e.1 best.1 b n, (b, a))

  min_from-IsFirst :
      (best : ℕ × Job Value) (jobs : Store Value) → IsFirst best jobs (min_from best jobs)
  unfolding min_from
  min_from-IsFirst best [] = (inl refl, NotAfter-self best.1, tt)
  min_from-IsFirst best (e ∷ jobs) = elim (Ordering-cases (claim_order best.1 e.1)) [
    | inl after ↦
        let same : min_from best (e ∷ jobs) ≡ min_from e jobs = rw after in
        let n : NotAfter e.1 best.1 = λ h. cc (o.flip best.1 e.1 after) in
        subst (IsFirst best (e ∷ jobs)) (sym same)
          (take_new best e (min_from e jobs) jobs n (min_from-IsFirst e jobs))
    | inr (inl before) ↦
        let same : min_from best (e ∷ jobs) ≡ min_from best jobs = rw before in
        subst (IsFirst best (e ∷ jobs)) (sym same)
          (keep_best best e (min_from best jobs) jobs (λ h. cc) (min_from-IsFirst best jobs))
    | inr (inr even) ↦
        let same : min_from best (e ∷ jobs) ≡ min_from best jobs = rw even in
        subst (IsFirst best (e ∷ jobs)) (sym same)
          (keep_best best e (min_from best jobs) jobs (λ h. cc) (min_from-IsFirst best jobs))
  ]
    where
      o : IsOrder (claim_order {Value = Value})
      o = claim_order-IsOrder

  In-apart :
      (e : ℕ × Job Value) (id : ℕ) (j : Job Value) (jobs : Store Value)
      → All (IsApart e) jobs
      → In (id, j) jobs
      → id ≢ e.0
  In-apart e id j [] a m = absurd m
  In-apart e id j (x ∷ jobs) a (inl h) = λ q. a.0.distinct (ap (λ (y : ℕ × Job Value). y.0) h ∙ q)
  In-apart e id j (x ∷ jobs) a (inr m) = In-apart e id j jobs a.1 m

  lookup-In :
      (id : ℕ) (j : Job Value) (jobs : Store Value)
      → WellFormed jobs
      → In (id, j) jobs
      → lookup id jobs ≡ some j
  unfolding lookup
  lookup-In id j [] w m = absurd m
  lookup-In id j ((k, x) ∷ jobs) w (inl e) = ground arith
  lookup-In id j ((k, x) ∷ jobs) w (inr m) =
      ground (arith, lookup-In id j jobs w.2 m, In-apart (k, x) id j jobs w.1 m)

  -- What `candidate` selects.
  abbrev pub Selects : ℕ → List JobType → Store Value → Option (ℕ × Job Value) → Type 0
  Selects now allowed jobs none = All (λ e. is_claimable now allowed e.1 ≡ false) jobs
  Selects now allowed jobs (some (id, j)) =
      (lookup id jobs ≡ some j)
      × (is_claimable now allowed j ≡ true)
      × All (λ e. is_claimable now allowed e.1 ≡ true → NotAfter j e.1) jobs

  selects :
      (now : ℕ) (allowed : List JobType) (jobs found : Store Value)
      → WellFormed jobs
      → filter (λ e. is_claimable now allowed e.1) jobs ≡ found
      → Selects now allowed jobs (candidate now allowed jobs)
  unfolding candidate
  selects now allowed jobs [] w h =
      let same : candidate now allowed jobs ≡ none = rw (h, candidate) refl in
      subst (Selects now allowed jobs) (sym same)
        (filter_nil (λ e. is_claimable now allowed e.1) jobs h)
  selects now allowed jobs (e ∷ rest) w h =
      let p = λ (x : ℕ × Job Value). is_claimable now allowed x.1 in
      let r = min_from e rest in
      let same : candidate now allowed jobs ≡ some r = rw (h, candidate) refl in
      let (m, b, a) = min_from-IsFirst e rest in
      let mem : In r (filter p jobs) = subst (In r) (sym h) m in
      let (here, good) = In-filter p r jobs mem in
      subst (Selects now allowed jobs) (sym same) (
        lookup-In r.0 r.1 jobs w here,
        good,
        All-filter p (λ x. NotAfter r.1 x.1) jobs
            (subst (All (λ x. NotAfter r.1 x.1)) (sym h) (b, a)),
      )

  -- On a well-formed map `candidate` finds nothing only if no job is claimable, and otherwise
  -- finds an entry of the map that is claimable and comes after no claimable job.
  pub candidate-Selects :
      (now : ℕ) (allowed : List JobType) (jobs : Store Value)
      → WellFormed jobs
      → Selects now allowed jobs (candidate now allowed jobs)
  candidate-Selects now allowed jobs w =
      selects now allowed jobs (filter (λ e. is_claimable now allowed e.1) jobs) w refl
