-- ===== src/Persistence/JobStore/Table.antt =====
-- The map of jobs behind `MemoryJobRepository`: `HashMap<Uuid, Job>` as an association list in
-- the order in which the map happens to be iterated.
use werrss.Common.{ℕ, Option, none, some, List, [], ◌∷◌, ◌==◌, if◌then◌else◌}
use werrss.Domain.Job.{Job, JobError}

pub data JobRepositoryError : Type 0 where
  domain : JobError → JobRepositoryError
  not_found : ℕ → JobRepositoryError
  storage : JobRepositoryError

abbrev pub Store : Type 0 → Type 0
Store Value = List (ℕ × Job Value)

module _ {Value : Type 0} where
  -- `HashMap::get`.
  unfoldable pub lookup : ℕ → Store Value → Option (Job Value)
  lookup id [] = none
  lookup id ((k, j) ∷ jobs) = if k == id then some j else lookup id jobs

  -- `HashMap::insert`; it is also the write through the reference that `get_mut` returns.
  unfoldable pub insert : ℕ → Job Value → Store Value → Store Value
  insert id new [] = (id, new) ∷ []
  insert id new ((k, j) ∷ jobs) = if k == id then (k, new) ∷ jobs else (k, j) ∷ insert id new jobs
