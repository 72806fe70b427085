-- ===== src/Domain/Job/Transitions.antt =====
-- The transitions of a job, src/domain/job.rs: each method of `Job` on `&mut self`, with its
-- guards in the code's order.
use werrss.Common.{
  ℕ, ℤ, is_positive, Bool, true, false, not, ◌||◌, Option, none, some, Text, codes, is_blank,
  opt_text_eq, Result, ok, err, Method, ◌>>=◌, ◌>>◌, return, try, get, modify, refuse_if, ok_or,
  ltb, leb, ◌==◌, if◌then◌else◌, is_some, opt_eq,
}
use werrss.Domain.Job.Types.{
  JobStatus, queued, running, retry_wait, deferred, succeeded, failed, is_waiting, is_running,
  Operation, claim_op, defer_op, heartbeat_op, succeed_op, retry_op, fail_op, cancel_op, JobError,
  invalid_attempt_limit, empty_dedupe_key, empty_lease_owner, invalid_lease_duration, not_due,
  attempts_exhausted, claim_count_overflow, failure_count_overflow, invalid_deferral_time,
  lease_owner_mismatch, lease_token_mismatch, lease_expired, lease_missing, empty_error,
  invalid_transition, NewJob, Job, checked_inc, saturating_inc, Clock,
}

unfoldable pub validate_owner : Text → Result JobError (Unit {0})
validate_owner owner = if is_blank owner then err empty_lease_owner else ok tt

unfoldable pub nonempty_error : Text → Result JobError Text
nonempty_error error = if is_blank error then err empty_error else ok error

unfoldable pub lease_expiry : Clock → ℕ → ℤ → Result JobError ℕ
lease_expiry c now lease_for =
    if is_positive lease_for
    then ok_or (c.checked_add_signed now lease_for) invalid_lease_duration
    else err invalid_lease_duration

-- `self.lease_until.is_some_and(|until| until > now)`.
abbrev lease_is_live : Option ℕ → ℕ → Bool
lease_is_live none now = false
lease_is_live (some until) now = ltb now until

module _ {Value : Type 0} where
  unfoldable pub new : ℕ → NewJob Value → Result JobError (Job Value)
  unfolding is_blank
  new id spec =
      if spec.max_attempts == 0
      then err invalid_attempt_limit
      else if is_blank spec.dedupe_key
      then err empty_dedupe_key
      else ok (record {
        id = id;
        job_type = spec.job_type;
        source_id = spec.source_id;
        status = queued;
        priority = spec.priority;
        run_after = spec.run_after;
        claim_count = 0;
        failure_count = 0;
        max_attempts = spec.max_attempts;
        lease_owner = none;
        lease_token = none;
        lease_until = none;
        heartbeat_at = none;
        started_at = none;
        finished_at = none;
        last_error = none;
        payload = spec.payload;
        dedupe_key = spec.dedupe_key;
        created_at = spec.now;
        updated_at = spec.now;
      })

  abbrev pub clear_lease : Job Value → Job Value
  clear_lease j = record j { lease_owner = none; lease_token = none; lease_until = none }

  unfoldable pub ensure_live_owner :
      Text → ℕ → ℕ → Operation → Job Value → Result JobError (Unit {0})
  ensure_live_owner owner token now operation self =
      if not (is_running self.status)
      then err (invalid_transition self.status operation)
      else if not (opt_text_eq self.lease_owner owner)
      then err lease_owner_mismatch
      else if not (opt_eq self.lease_token token)
      then err lease_token_mismatch
      else elim (self.lease_until) [
        | none ↦ err lease_missing
        | some until ↦ if ltb now until then ok tt else err lease_expired
      ]

  -- `token` is the fresh UUID of `LeaseToken::new()`.
  unfoldable pub claim : Clock → ℕ → Text → ℕ → ℤ → Method (Job Value) JobError ℕ
  claim c token owner now lease_for = do
    try (validate_owner owner)
    until ← try (lease_expiry c now lease_for)
    self ← get
    refuse_if (not (is_waiting self.status)) (invalid_transition self.status claim_op)
    refuse_if (ltb now self.run_after) not_due
    refuse_if (leb self.max_attempts self.failure_count) attempts_exhausted
    claims ← try (ok_or (checked_inc self.claim_count) claim_count_overflow)
    modify (λ j. record j {
      claim_count = claims;
      status = running;
      lease_owner = some owner;
      lease_token = some token;
      lease_until = some until;
      heartbeat_at = some now;
      started_at = if is_some j.started_at then j.started_at else some now;
      finished_at = none;
      updated_at = now;
    })
    return token

  unfoldable pub defer : Text → ℕ → ℕ → ℕ → Method (Job Value) JobError (Unit {0})
  defer owner token now resume_at = do
    try (validate_owner owner)
    refuse_if (leb resume_at now) invalid_deferral_time
    self ← get
    try (ensure_live_owner owner token now defer_op self)
    modify (λ j. record (clear_lease j) {
      status = deferred;
      run_after = resume_at;
      last_error = none;
      finished_at = none;
      updated_at = now;
    })

  unfoldable pub heartbeat : Clock → Text → ℕ → ℕ → ℤ → Method (Job Value) JobError (Unit {0})
  heartbeat c owner token now lease_for = do
    try (validate_owner owner)
    until ← try (lease_expiry c now lease_for)
    self ← get
    try (ensure_live_owner owner token now heartbeat_op self)
    modify (λ j. record j { lease_until = some until; heartbeat_at = some now; updated_at = now })

  unfoldable pub succeed : Text → ℕ → ℕ → Method (Job Value) JobError (Unit {0})
  succeed owner token now = do
    try (validate_owner owner)
    self ← get
    try (ensure_live_owner owner token now succeed_op self)
    modify (λ j. record (clear_lease j) {
      status = succeeded;
      last_error = none;
      finished_at = some now;
      updated_at = now;
    })

  -- The fields written before the failure counter is added to stay written if that overflows.
  unfoldable pub retry : Text → ℕ → ℕ → ℕ → Text → Method (Job Value) JobError JobStatus
  retry owner token now retry_at error = do
    try (validate_owner owner)
    summary ← try (nonempty_error error)
    self ← get
    try (ensure_live_owner owner token now retry_op self)
    modify (λ j. record (clear_lease j) {
      run_after = retry_at;
      last_error = some summary;
      updated_at = now;
    })
    failures ← try (ok_or (checked_inc self.failure_count) failure_count_overflow)
    let exhausted = leb self.max_attempts failures
    modify (λ j. record j {
      failure_count = failures;
      status = if exhausted then failed else retry_wait;
      finished_at = if exhausted then some now else none;
    })
    return (if exhausted then failed else retry_wait)

  unfoldable pub fail : Text → ℕ → ℕ → Text → Method (Job Value) JobError (Unit {0})
  fail owner token now error = do
    try (validate_owner owner)
    summary ← try (nonempty_error error)
    self ← get
    try (ensure_live_owner owner token now fail_op self)
    modify (λ j. record (clear_lease j) {
      status = failed;
      last_error = some summary;
      finished_at = some now;
      updated_at = now;
    })

  unfoldable pub cancel : ℕ → Text → Method (Job Value) JobError (Unit {0})
  cancel now reason = do
    summary ← try (nonempty_error reason)
    self ← get
    refuse_if (not (is_waiting self.status)) (invalid_transition self.status cancel_op)
    modify (λ j. record (clear_lease j) {
      status = failed;
      last_error = some summary;
      finished_at = some now;
      updated_at = now;
    })

  unfoldable pub recover_expired_lease : ℕ → Job Value → Job Value × Bool
  recover_expired_lease now self =
      let failures = saturating_inc self.failure_count in
      let exhausted = leb self.max_attempts failures in
      if not (is_running self.status) || lease_is_live self.lease_until now
      then (self, false)
      else (
        record (clear_lease self) {
          run_after = now;
          last_error = some (codes "worker lease expired");
          updated_at = now;
          failure_count = failures;
          status = if exhausted then failed else queued;
          finished_at = if exhausted then some now else none;
        },
        true,
      )
