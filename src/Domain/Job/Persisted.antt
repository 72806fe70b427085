-- ===== src/Domain/Job/Persisted.antt =====
-- Reading a job back from storage, src/domain/job.rs: `from_persisted` and the state checks.
use werrss.Common.{
  Bool, false, not, ◌&&◌, ◌||◌, Option, none, some, Text, is_blank, Result, ok, err, ltb, leb, ◌==◌,
  if◌then◌else◌, is_some,
}
use werrss.Domain.Job.Types.{
  JobStatus, queued, running, retry_wait, deferred, succeeded, failed, JobError,
  failure_count_limit, dedupe_key_empty, running_unclaimed, running_lease_incomplete,
  running_owner_empty, running_finished, running_exhausted, waiting_leased, waiting_finished,
  waiting_exhausted, terminal_leased, terminal_unfinished, invalid_persisted_state, Job,
}

-- `owner.is_some_and(|owner| owner.trim().is_empty())`.
abbrev owner_is_blank : Option Text → Bool
owner_is_blank none = false
owner_is_blank (some owner) = is_blank owner

module _ {Value : Type 0} where
  -- `PersistedJob` has the fields of `Job`, and the conversion copies each.
  abbrev lease_is_complete : Job Value → Bool
  lease_is_complete j = is_some j.lease_owner && (is_some j.lease_token && is_some j.lease_until)

  abbrev lease_is_empty : Job Value → Bool
  lease_is_empty j =
      not (is_some j.lease_owner) && (not (is_some j.lease_token) && not (is_some j.lease_until))

  validate_running : Job Value → Result JobError (Unit {0})
  validate_running j =
      if j.claim_count == 0
      then err (invalid_persisted_state running_unclaimed)
      else if not (lease_is_complete j)
      then err (invalid_persisted_state running_lease_incomplete)
      else if owner_is_blank j.lease_owner
      then err (invalid_persisted_state running_owner_empty)
      else if is_some j.finished_at
      then err (invalid_persisted_state running_finished)
      else if leb j.max_attempts j.failure_count
      then err (invalid_persisted_state running_exhausted)
      else ok tt

  validate_waiting : Job Value → Result JobError (Unit {0})
  validate_waiting j =
      if not (lease_is_empty j)
      then err (invalid_persisted_state waiting_leased)
      else if is_some j.finished_at
      then err (invalid_persisted_state waiting_finished)
      else if leb j.max_attempts j.failure_count
      then err (invalid_persisted_state waiting_exhausted)
      else ok tt

  validate_terminal : Job Value → Result JobError (Unit {0})
  validate_terminal j =
      if not (lease_is_empty j)
      then err (invalid_persisted_state terminal_leased)
      else if not (is_some j.finished_at)
      then err (invalid_persisted_state terminal_unfinished)
      else ok tt

  -- The guarded arms of `match self.status`, grouped by the status that they name.
  validate_status : JobStatus → Job Value → Result JobError (Unit {0})
  unfolding validate_running validate_waiting validate_terminal
  validate_status running j = validate_running j
  validate_status queued j = validate_waiting j
  validate_status retry_wait j = validate_waiting j
  validate_status deferred j = validate_waiting j
  validate_status succeeded j = validate_terminal j
  validate_status failed j = validate_terminal j

  unfoldable pub validate_persisted_state : Job Value → Result JobError (Unit {0})
  unfolding validate_status
  validate_persisted_state j =
      if j.max_attempts == 0 || ltb j.max_attempts j.failure_count
      then err (invalid_persisted_state failure_count_limit)
      else if is_blank j.dedupe_key
      then err (invalid_persisted_state dedupe_key_empty)
      else validate_status j.status j

  unfoldable pub from_persisted : Job Value → Result JobError (Job Value)
  from_persisted row = elim (validate_persisted_state row) [ ok _ ↦ ok row | err e ↦ err e ]
