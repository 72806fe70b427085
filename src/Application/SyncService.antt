-- ===== src/Application/SyncService.antt =====
-- The classification of acquisition failures, src/application/sync_service.rs, with the errors of
-- src/acquisition/weread.rs and src/acquisition/article_page.rs.
use mathlib.Core.Logic.{◌⊎◌, inl, inr}
use werrss.Common.{
  ℕ, ◌≤◌, ℤ, Bool, true, false, Option, some, Text, codes, trim, utf8_len, ltb, if◌then◌else◌,
  Result, ok, err, ◌≡◌, refl, arith,
}
use werrss.Domain.Sync.{
  SyncOutcome, authentication_required, risk_controlled, blocked, retryable_failure, failed,
  running, SyncFailureClass, authentication_expired, class_risk_controlled, class_blocked,
  retryable, permanent, SyncFailure, SyncError, new_failure, SyncStats, SyncRun, SyncRunCompletion,
  finish, validate_outcome, is_finished,
}

pub data WeReadAdapterError : Type 0 where
  lease_lost : (account_id : ℕ) → WeReadAdapterError
  lease_backend protocol unexpected_response weread_browser : Text → WeReadAdapterError
  session_expired request_risk_controlled : (code : ℤ) → WeReadAdapterError
  content_verification_required credential_provider_not_configured : WeReadAdapterError
  invalid_review_id invalid_article_url : WeReadAdapterError

pub data ArticlePageError : Type 0 where
  page_browser invalid_extraction : Text → ArticlePageError
  unsafe_redirect page_verification_required operation_timed_out : ArticlePageError

pub data SyncAcquisitionError : Type 0 where
  no_account_enrolled : SyncAcquisitionError
  weread : WeReadAdapterError → SyncAcquisitionError
  article_page : ArticlePageError → SyncAcquisitionError

pub record ClassifiedSyncFailure : Type 0 where
  pub outcome : SyncOutcome
  pub failure : SyncFailure
  pub log_as_error : Bool

-- The table.
abbrev pub classified : SyncAcquisitionError → SyncOutcome × (SyncFailureClass × Text)
classified no_account_enrolled = (failed, (permanent, codes "no usable WeRead account is enrolled"))
classified (weread (session_expired code)) =
    (authentication_required, (authentication_expired, codes "WeRead authentication expired"))
classified (weread (request_risk_controlled code)) =
    (risk_controlled, (class_risk_controlled, codes "WeRead request was risk-controlled"))
classified (weread content_verification_required) =
    (blocked, (class_blocked, codes "authenticated WeRead article acquisition was blocked"))
classified (weread invalid_article_url) =
    (failed, (permanent, codes "WeRead article identity was invalid"))
classified (weread invalid_review_id) =
    (failed, (permanent, codes "WeRead article identity was invalid"))
classified (weread credential_provider_not_configured) =
    (failed, (permanent, codes "WeRead authentication configuration is incomplete"))
classified (article_page unsafe_redirect) =
    (blocked, (class_blocked, codes "public article acquisition was blocked"))
classified (article_page page_verification_required) =
    (blocked, (class_blocked, codes "public article acquisition was blocked"))
classified (weread (unexpected_response text)) =
    (retryable_failure, (retryable, codes "WeRead returned an unexpected response"))
classified (article_page (invalid_extraction text)) =
    (failed, (permanent, codes "public article content could not be extracted"))
classified _ = (retryable_failure, (retryable, codes "upstream acquisition failed temporarily"))

abbrev is_failed : SyncOutcome → Bool
is_failed failed = true
is_failed _ = false

abbrev is_no_account : SyncAcquisitionError → Bool
is_no_account no_account_enrolled = true
is_no_account _ = false

-- An error is what `expect` would panic with.
unfoldable pub classify_acquisition_error :
    SyncAcquisitionError → Result SyncError ClassifiedSyncFailure
classify_acquisition_error error =
    let (outcome, (class, message)) = classified error in
    elim (new_failure class message) [
      | ok failure ↦ ok (record {
        outcome = outcome;
        failure = failure;
        log_as_error = if is_no_account error then false else is_failed outcome;
      })
      | err e ↦ err e
    ]

-- The completion of a run by a classified failure.
abbrev pub completed : ClassifiedSyncFailure → SyncStats → Option ℕ → ℕ → SyncRunCompletion
completed f stats revision at = record {
  outcome = f.outcome;
  failure = some f.failure;
  stats = stats;
  feed_revision = revision;
  finished_at = at;
}

-- A row of the table that is consistent with the rules of a run.
abbrev IsRow : SyncOutcome × (SyncFailureClass × Text) → Type 0
IsRow (outcome, (class, message)) =
    (new_failure class message ≡ ok (record { class = class; message = message }))
    × ((is_finished outcome ≡ true)
        × (((at : ℕ)
              → validate_outcome outcome (some (record { class = class; message = message }))
                  (some at)
                ≡ ok tt)
            × ((is_failed outcome ≡ false) ⊎ (class ≡ permanent))))

classified_valid : (error : SyncAcquisitionError) → IsRow (classified error)
unfolding new_failure validate_outcome trim utf8_len
classified_valid no_account_enrolled = (refl, (refl, (λ at. refl, inr refl)))
classified_valid (weread (lease_lost id)) = (refl, (refl, (λ at. refl, inl refl)))
classified_valid (weread (lease_backend text)) = (refl, (refl, (λ at. refl, inl refl)))
classified_valid (weread (protocol text)) = (refl, (refl, (λ at. refl, inl refl)))
classified_valid (weread (unexpected_response text)) = (refl, (refl, (λ at. refl, inl refl)))
classified_valid (weread (weread_browser text)) = (refl, (refl, (λ at. refl, inl refl)))
classified_valid (weread (session_expired code)) = (refl, (refl, (λ at. refl, inl refl)))
classified_valid (weread (request_risk_controlled code)) = (refl, (refl, (λ at. refl, inl refl)))
classified_valid (weread content_verification_required) = (refl, (refl, (λ at. refl, inl refl)))
classified_valid (weread credential_provider_not_configured) =
    (refl, (refl, (λ at. refl, inr refl)))
classified_valid (weread invalid_review_id) = (refl, (refl, (λ at. refl, inr refl)))
classified_valid (weread invalid_article_url) = (refl, (refl, (λ at. refl, inr refl)))
classified_valid (article_page (page_browser text)) = (refl, (refl, (λ at. refl, inl refl)))
classified_valid (article_page (invalid_extraction text)) = (refl, (refl, (λ at. refl, inr refl)))
classified_valid (article_page unsafe_redirect) = (refl, (refl, (λ at. refl, inl refl)))
classified_valid (article_page page_verification_required) = (refl, (refl, (λ at. refl, inl refl)))
classified_valid (article_page operation_timed_out) = (refl, (refl, (λ at. refl, inl refl)))

-- The run that a valid completion leaves.
abbrev finished : SyncRunCompletion → SyncRun → SyncRun
finished c run = record run {
  outcome = c.outcome;
  stats = c.stats;
  failure = c.failure;
  feed_revision = c.feed_revision;
  finished_at = some c.finished_at;
  updated_at = c.finished_at;
}

finish_valid :
    (c : SyncRunCompletion) (run : SyncRun)
    → run.outcome ≡ running
    → run.started_at ≤ c.finished_at
    → is_finished c.outcome ≡ true
    → validate_outcome c.outcome c.failure (some c.finished_at) ≡ ok tt
    → finish c run ≡ ok (finished c run)
unfolding finish
finish_valid c run going begun ended valid =
    let late : ltb c.finished_at run.started_at ≡ false = ground arith in
    rw (going, ended, late, valid) refl

quiet :
    (b : Bool) (o : SyncOutcome) (k : SyncFailureClass)
    → (is_failed o ≡ false) ⊎ (k ≡ permanent)
    → ((if b then false else is_failed o) ≡ false) ⊎ (k ≡ permanent)
quiet true o k l = inl refl
quiet false o k l = l

-- Every acquisition error is classified, and the failure finishes a running run at any instant from
-- its start on, which then has that outcome and that failure; only a permanent one is logged as an
-- error.
pub classify-finish :
    (error : SyncAcquisitionError) (stats : SyncStats) (revision : Option ℕ) (at : ℕ)
    (run : SyncRun)
    → run.outcome ≡ running
    → run.started_at ≤ at
    → (f : ClassifiedSyncFailure) × ((classify_acquisition_error error ≡ ok f)
        × (((f.log_as_error ≡ false) ⊎ (f.failure.class ≡ permanent))
            × ((s : SyncRun) × ((finish (completed f stats revision at) run ≡ ok s)
                  × ((s.outcome ≡ f.outcome) × (s.failure ≡ some f.failure))))))
unfolding classify_acquisition_error
classify-finish error stats revision at run going begun =
    let (made, (ended, (valid, logged))) = classified_valid error in
    let (outcome, (class, message)) = classified error in
    let f : ClassifiedSyncFailure = record {
      outcome = outcome;
      failure = record { class = class; message = message };
      log_as_error = if is_no_account error then false else is_failed outcome;
    } in
    let c = completed f stats revision at in
    (
      f,
      (
        rw (made, classify_acquisition_error) refl,
        (
          quiet (is_no_account error) outcome class logged,
          (finished c run, (finish_valid c run going begun ended (valid at), (refl, refl))),
        ),
      ),
    )
