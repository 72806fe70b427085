-- ===== src/Domain/Sync/Runs.antt =====
-- The life of a synchronization run, src/domain/sync.rs.
use werrss.Common.{
  ℕ, ◌≤◌, ◌≡◌, refl, ◌≢◌, ◌↔◌, ◌⊎◌, true, Option, none, some, ok, err, is_some, arith,
}
use werrss.Domain.Sync.{
  SyncOutcome, running, succeeded, deferred, authentication_required, risk_controlled, blocked,
  retryable_failure, failed, SyncFailureClass, authentication_expired, class_risk_controlled,
  class_blocked, retryable, permanent, already_finished, as_str, parse, class_as_str, class_parse,
  is_finished, SyncFailure, SyncRun, SyncRunCompletion, NewSyncRun, validate_outcome, start,
  from_parts, finish,
}

-- The failure is there, and of that class.
abbrev pub Carries : Option SyncFailure → SyncFailureClass → Type 0
Carries none k = ⊥
Carries (some f) k = f.class ≡ k

-- What a run's outcome, failure and end say together.
abbrev pub IsCoherent : SyncOutcome → Option SyncFailure → Option ℕ → Type 0
IsCoherent running f end = (f ≡ none) × (end ≡ none)
IsCoherent succeeded f end = (f ≡ none) × (is_some end ≡ true)
IsCoherent deferred f end = (f ≡ none) × (is_some end ≡ true)
IsCoherent authentication_required f end = Carries f authentication_expired × (is_some end ≡ true)
IsCoherent risk_controlled f end = Carries f class_risk_controlled × (is_some end ≡ true)
IsCoherent blocked f end = Carries f class_blocked × (is_some end ≡ true)
IsCoherent retryable_failure f end = Carries f retryable × (is_some end ≡ true)
IsCoherent failed f end = (Carries f permanent ⊎ Carries f retryable) × (is_some end ≡ true)

parse-as_str_outcome : (o : SyncOutcome) → parse (as_str o) ≡ ok o
unfolding parse as_str
parse-as_str_outcome running = refl
parse-as_str_outcome _ = refl

parse-as_str_class : (k : SyncFailureClass) → class_parse (class_as_str k) ≡ ok k
unfolding class_parse class_as_str
parse-as_str_class permanent = refl
parse-as_str_class _ = refl

-- `parse` reads back what `as_str` writes, for outcomes and for failure classes.
pub parse-as_str :
    (o : SyncOutcome) (k : SyncFailureClass)
    → (parse (as_str o) ≡ ok o) × (class_parse (class_as_str k) ≡ ok k)
parse-as_str o k = (parse-as_str_outcome o, parse-as_str_class k)

validate_outcome_sound :
    (o : SyncOutcome) (f : Option SyncFailure) (end : Option ℕ)
    → validate_outcome o f end ≡ ok tt
    → IsCoherent o f end
unfolding validate_outcome
validate_outcome_sound running f end h = ground arith
validate_outcome_sound _ f end h = ground arith

validate_outcome_complete :
    (o : SyncOutcome) (f : Option SyncFailure) (end : Option ℕ)
    → IsCoherent o f end
    → validate_outcome o f end ≡ ok tt
unfolding validate_outcome
validate_outcome_complete running f end c = ground arith
validate_outcome_complete _ f end c = ground arith

-- The check on outcomes accepts exactly the coherent combinations: a running run has neither failure
-- nor end, a finished one has an end and the failure classes of its outcome.
pub validate_outcome_iff :
    (o : SyncOutcome) (f : Option SyncFailure) (end : Option ℕ)
    → (validate_outcome o f end ≡ ok tt) ↔ IsCoherent o f end
validate_outcome_iff o f end = (validate_outcome_sound o f end, validate_outcome_complete o f end)

abbrev pub NotNil : Option ℕ → Type 0
NotNil none = Unit {0}
NotNil (some id) = id ≢ 0

abbrev pub EndsFrom : ℕ → Option ℕ → Type 0
EndsFrom start none = Unit {0}
EndsFrom start (some end) = start ≤ end

-- The invariant of a run.
pub record IsRun (r : SyncRun) : Type 0 where
  pub named : r.id ≢ 0
  pub sourced : r.source_id ≢ 0
  pub jobbed : NotNil r.job_id
  pub ordered : EndsFrom r.started_at r.finished_at
  pub coherent : IsCoherent r.outcome r.failure r.finished_at

pub start-IsRun : (spec : NewSyncRun) {r : SyncRun} → start spec ≡ ok r → IsRun r
unfolding start
start-IsRun spec h = ground arith

finish_fields :
    (c : SyncRunCompletion) (r s : SyncRun)
    → finish c r ≡ ok s
    → (validate_outcome c.outcome c.failure (some c.finished_at) ≡ ok tt)
      × (s ≡ record r {
        outcome = c.outcome;
        stats = c.stats;
        failure = c.failure;
        feed_revision = c.feed_revision;
        finished_at = some c.finished_at;
        updated_at = c.finished_at;
      })
      × (r.outcome ≡ running)
      × (r.started_at ≤ c.finished_at)
      × (is_finished c.outcome ≡ true)
unfolding finish
finish_fields c r s h = ground arith

-- A run that is finished is still well formed, keeps its identity and its start, records the
-- completion, and cannot be finished again.
pub finish-IsRun :
    (c d : SyncRunCompletion) (r s : SyncRun)
    → IsRun r
    → finish c r ≡ ok s
    → IsRun s
      × (s.id ≡ r.id)
      × (s.started_at ≡ r.started_at)
      × (s.outcome ≡ c.outcome)
      × (s.finished_at ≡ some c.finished_at)
      × (finish d s ≡ err already_finished)
unfolding finish
finish-IsRun c d r s v h =
    let (valid, same, run, order, done) = finish_fields c r s h in
    let coherent = validate_outcome_sound c.outcome c.failure (some c.finished_at) valid in
    (
      record {
        named = ground arith;
        sourced = ground arith;
        jobbed = ground arith;
        ordered = ground arith;
        coherent = ground arith;
      },
      ground arith,
      ground arith,
      ground arith,
      ground arith,
      ground arith,
    )

-- Reading a run back accepts exactly the well-formed runs, and changes none.
pub from_parts_iff : (r : SyncRun) → (from_parts r ≡ ok r) ↔ IsRun r
unfolding from_parts
from_parts_iff r = (
  λ h. ground (arith, validate_outcome_sound r.outcome r.failure r.finished_at),
  λ v. ground (arith, validate_outcome_complete r.outcome r.failure r.finished_at),
)
