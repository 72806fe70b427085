-- ===== src/Persistence/JobStore/Maps.antt =====
-- The laws of the job map of src/persistence/repositories/job_repository.rs.
use werrss.Common.{
  ℕ, ◌≡◌, refl, none, some, [], ◌∷◌, ◌==◌, if◌then◌else◌, All, Bool-cases, inl, inr, arith, subst,
}
use werrss.Domain.Job.{Job}
use werrss.Persistence.JobStore.Table.{Store, lookup, insert}

module _ {Value : Type 0} where
  pub lookup-insert :
      (id i : ℕ) (j : Job Value) (jobs : Store Value)
      → lookup i (insert id j jobs) ≡ (if id == i then some j else lookup i jobs)
  unfolding lookup insert
  lookup-insert id i j [] = refl
  lookup-insert id i j ((k, x) ∷ jobs) = ground (arith, lookup-insert id i j jobs)

  -- What holds of every entry holds of the one that is found.
  pub All-lookup {κ} :
      (P : ℕ × Job Value → Type κ) (id : ℕ) (j : Job Value) (jobs : Store Value)
      → All P jobs
      → lookup id jobs ≡ some j
      → P (id, j)
  unfolding lookup
  All-lookup P id j [] a h = absurd (cc)
  All-lookup P id j ((k, x) ∷ jobs) a h = elim (Bool-cases (k == id)) [
    | inl hit ↦ subst P (let e : k ≡ id = ground arith in let f : x ≡ j = ground arith in cc) a.0
    | inr miss ↦ All-lookup P id j jobs a.1 (ground arith)
  ]

  -- A write keeps what holds of every entry, if it holds of the new one whenever it held of the old.
  pub All-update {κ} :
      (P : ℕ × Job Value → Type κ) (id : ℕ) (j new : Job Value) (jobs : Store Value)
      → lookup id jobs ≡ some j
      → (P (id, j) → P (id, new))
      → All P jobs
      → All P (insert id new jobs)
  unfolding lookup insert
  All-update P id j new [] h f a = absurd (cc)
  All-update P id j new ((k, x) ∷ jobs) h f a = elim (Bool-cases (k == id)) [
    | inl hit ↦
        let e : k ≡ id = ground arith in
        let held : P (id, j) = subst P (let g : x ≡ j = ground arith in cc) a.0 in
        rw hit (subst P (cc) (f held), a.1)
    | inr miss ↦ rw miss (a.0, All-update P id j new jobs (ground arith) f a.1)
  ]

  -- A write under a new key adds an entry.
  pub All-add {κ} :
      (P : ℕ × Job Value → Type κ) (id : ℕ) (new : Job Value) (jobs : Store Value)
      → lookup id jobs ≡ none
      → P (id, new)
      → All P jobs
      → All P (insert id new jobs)
  unfolding lookup insert
  All-add P id new [] h p a = (p, tt)
  All-add P id new ((k, x) ∷ jobs) h p a = elim (Bool-cases (k == id)) [
    | inl hit ↦ absurd (ground arith)
    | inr miss ↦ rw miss (a.0, All-add P id new jobs (ground arith) p a.1)
  ]
