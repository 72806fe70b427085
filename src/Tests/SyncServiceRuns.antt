-- ===== src/Tests/SyncServiceRuns.antt =====
-- Runs of the classification of acquisition failures, src/application/sync_service.rs.
use werrss.Common.{◌≡◌, refl, ◌⊎◌, true, false, none, some, codes, pos, negsuc, is_ok, ok, arith}
use werrss.Domain.Sync.{SyncRun, running, no_stats, finish, authentication_required, permanent}
use werrss.Application.SyncService.{
  ClassifiedSyncFailure, weread, session_expired, no_account_enrolled, classify_acquisition_error,
  completed, classify-finish,
}

abbrev fetching_run : SyncRun
fetching_run = record {
  id = 5;
  source_id = 4;
  job_id = none;
  outcome = running;
  stats = no_stats;
  failure = none;
  feed_revision = none;
  started_at = 50;
  finished_at = none;
  created_at = 50;
  updated_at = 50;
}

missing_account_is_quiet :
    (f : ClassifiedSyncFailure) × ((classify_acquisition_error no_account_enrolled ≡ ok f)
      × (f.log_as_error ≡ false))
unfolding classify_acquisition_error werrss.Domain.Sync.new_failure werrss.Common.trim
    werrss.Common.utf8_len
missing_account_is_quiet = (_, (refl, refl))

classify-finish_example :
    (f : ClassifiedSyncFailure) × ((classify_acquisition_error
          (weread (session_expired (negsuc 2011)))
        ≡ ok f)
      × (((f.log_as_error ≡ false) ⊎ (f.failure.class ≡ permanent))
          × ((s : SyncRun) × ((finish (completed f no_stats none 60) fetching_run ≡ ok s)
                × ((s.outcome ≡ f.outcome) × (s.failure ≡ some f.failure))))))
classify-finish_example =
    classify-finish (weread (session_expired (negsuc 2011))) no_stats none 60 fetching_run refl
      (omega arith)
