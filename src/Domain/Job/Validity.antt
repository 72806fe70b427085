-- ===== src/Domain/Job/Validity.antt =====
-- The well-formedness invariant of a job, src/domain/job.rs.
use werrss.Common.{
  ℕ, ◌≤◌, ◌<◌, ℤ, ◌≡◌, true, false, Option, none, some, Text, is_blank, ok, is_some, arith,
}
use werrss.Domain.Job.Types.{
  JobStatus, queued, running, retry_wait, deferred, succeeded, failed, Job, NewJob, Clock, u32_max,
}
use werrss.Domain.Job.Persisted.{validate_persisted_state}
use werrss.Domain.Job.Transitions.{
  new, claim, defer, heartbeat, succeed, retry, fail, cancel, recover_expired_lease, validate_owner,
  ensure_live_owner,
}

validate_owner_ok : (owner : Text) → validate_owner owner ≡ ok tt → is_blank owner ≡ false
unfolding validate_owner
validate_owner_ok owner h = ground arith

-- An owner is given, and is not blank.
abbrev pub HasName : Option Text → Type 0
HasName none = ⊥
HasName (some owner) = is_blank owner ≡ false

module _ {Value : Type 0} where
  pub record IsUnleased (j : Job Value) : Type 0 where
    pub no_owner : j.lease_owner ≡ none
    pub no_token : j.lease_token ≡ none
    pub no_until : j.lease_until ≡ none

  -- What a status promises of the other fields.
  pub record IsRunning (j : Job Value) : Type 0 where
    pub claimed : 0 < j.claim_count
    pub owned : HasName j.lease_owner
    pub fenced : is_some j.lease_token ≡ true
    pub bounded : is_some j.lease_until ≡ true
    pub unfinished : j.finished_at ≡ none
    pub budgeted : j.failure_count < j.max_attempts

  pub record IsWaiting (j : Job Value) : Type 0 where
    pub unleased : IsUnleased j
    pub unfinished : j.finished_at ≡ none
    pub budgeted : j.failure_count < j.max_attempts

  pub record IsDone (j : Job Value) : Type 0 where
    pub unleased : IsUnleased j
    pub finished : is_some j.finished_at ≡ true

  abbrev pub Fits : JobStatus → Job Value → Type 0
  Fits running j = IsRunning j
  Fits queued j = IsWaiting j
  Fits retry_wait j = IsWaiting j
  Fits deferred j = IsWaiting j
  Fits succeeded j = IsDone j
  Fits failed j = IsDone j

  pub record IsValid (j : Job Value) : Type 0 where
    pub limited : 0 < j.max_attempts
    pub within : j.failure_count ≤ j.max_attempts
    pub keyed : is_blank j.dedupe_key ≡ false
    pub fits : Fits j.status j

  pub validate_sound : (j : Job Value) → validate_persisted_state j ≡ ok tt → IsValid j
  unfolding validate_persisted_state
  validate_sound j h = ground arith

  pub validate_complete : (j : Job Value) → IsValid j → validate_persisted_state j ≡ ok tt
  unfolding validate_persisted_state
  validate_complete j v = ground arith

  -- A new job is valid.
  pub new-IsValid : (id : ℕ) (spec : NewJob Value) {j : Job Value} → new id spec ≡ ok j → IsValid j
  unfolding new
  new-IsValid id spec h = ground arith

  pub claim-IsValid :
      (c : Clock) (token : ℕ) (owner : Text) (now : ℕ) (lease_for : ℤ) (j : Job Value)
      → IsValid j
      → IsValid (claim c token owner now lease_for j).0
  unfolding claim
  claim-IsValid c token owner now lease_for j v = ground (arith, validate_owner_ok owner)

  pub defer-IsValid :
      (owner : Text) (token now resume_at : ℕ) (j : Job Value)
      → IsValid j
      → IsValid (defer owner token now resume_at j).0
  unfolding defer ensure_live_owner
  defer-IsValid owner token now resume_at j v = ground arith

  pub heartbeat-IsValid :
      (c : Clock) (owner : Text) (token now : ℕ) (lease_for : ℤ) (j : Job Value)
      → IsValid j
      → IsValid (heartbeat c owner token now lease_for j).0
  unfolding heartbeat ensure_live_owner
  heartbeat-IsValid c owner token now lease_for j v = ground arith

  pub succeed-IsValid :
      (owner : Text) (token now : ℕ) (j : Job Value)
      → IsValid j
      → IsValid (succeed owner token now j).0
  unfolding succeed ensure_live_owner
  succeed-IsValid owner token now j v = ground arith

  pub retry-IsValid :
      (owner : Text) (token now retry_at : ℕ) (error : Text) (j : Job Value)
      → j.max_attempts ≤ u32_max
      → IsValid j
      → IsValid (retry owner token now retry_at error j).0
  unfolding retry ensure_live_owner
  retry-IsValid owner token now retry_at error j u v = ground arith

  pub fail-IsValid :
      (owner : Text) (token now : ℕ) (error : Text) (j : Job Value)
      → IsValid j
      → IsValid (fail owner token now error j).0
  unfolding fail ensure_live_owner
  fail-IsValid owner token now error j v = ground arith

  pub cancel-IsValid :
      (now : ℕ) (reason : Text) (j : Job Value) → IsValid j → IsValid (cancel now reason j).0
  unfolding cancel
  cancel-IsValid now reason j v = ground arith

  pub recover_expired_lease-IsValid :
      (now : ℕ) (j : Job Value)
      → j.max_attempts ≤ u32_max
      → IsValid j
      → IsValid (recover_expired_lease now j).0
  unfolding recover_expired_lease
  recover_expired_lease-IsValid now j u v = ground arith
