-- ===== src/Tests/DomainRuns.antt =====
-- Runs of the sources and the synchronization runs, src/domain/source.rs and src/domain/sync.rs.
use werrss.Common.{◌+◌, ◌≡◌, refl, ◌↔◌, ◌⊎◌, pos, true, none, some, ok, trim, codes, text_eq, arith}
use werrss.Domain.Source.{
  Source, SourceUpdate, Durations, ready, validate, apply_update, apply_patch,
}
use werrss.Domain.Source.Revisions.{IsTrimmed, SameFeed, apply_update-revision}
use werrss.Domain.Sync.{
  SyncOutcome, SyncFailureClass, SyncRun, SyncRunCompletion, SyncFailure, no_stats, as_str, parse,
  class_as_str, class_parse, retryable, retryable_failure, already_finished, validate_outcome,
  from_parts, finish,
}
use werrss.Domain.Sync
use werrss.Domain.Sync.{new_failure}
use werrss.Domain.Sync.Runs.{IsRun, from_parts_iff}

-- Durations of whole seconds.
abbrev exact_durations : Durations
exact_durations = record { num_seconds = λ d. d; seconds = λ s. s }

abbrev a_source : Source
a_source = record {
  id = 4;
  book_id = codes "MP_WXS_1";
  display_name = codes "Journal";
  article_url = none;
  enabled = true;
  sync_interval = pos 3600;
  rss_item_limit = 20;
  account_id = some 2;
  scheduling_gate = ready;
  feed_revision = 6;
  next_fetch_at = 100;
  failure_cooldown_until = none;
  schedule_reserved_until = none;
  priority = pos 0;
  max_attempts = 5;
}

-- A new name, with spaces around it.
abbrev renaming : SourceUpdate
renaming = record {
  book_id = codes "MP_WXS_1";
  display_name = codes " Gazette ";
  article_url = none;
  sync_interval = pos 3600;
  rss_item_limit = 20;
  account_id = some 2;
  priority = pos 0;
  max_attempts = 5;
}

abbrev renamed_source : Source
renamed_source = record a_source { display_name = codes "Gazette"; feed_revision = 7 }

apply_update-revision_example :
    (validate exact_durations renamed_source ≡ ok tt)
    × IsTrimmed renamed_source
    × (renamed_source.id ≡ a_source.id)
    × (renamed_source.enabled ≡ a_source.enabled)
    × (renamed_source.scheduling_gate ≡ a_source.scheduling_gate)
    × (renamed_source.next_fetch_at ≡ a_source.next_fetch_at)
    × ((SameFeed renamed_source a_source × (renamed_source.feed_revision ≡ a_source.feed_revision))
        ⊎ ((¬ SameFeed renamed_source a_source)
            × (renamed_source.feed_revision ≡ a_source.feed_revision + 1)))
unfolding apply_update validate trim werrss.Domain.Source.feed_visible_change text_eq
    werrss.Domain.Source.advance_feed_revision
apply_update-revision_example =
    apply_update-revision exact_durations renaming a_source renamed_source refl

abbrev a_run : SyncRun
a_run = record {
  id = 11;
  source_id = 4;
  job_id = some 1;
  outcome = Sync.running;
  stats = no_stats;
  failure = none;
  feed_revision = none;
  started_at = 50;
  finished_at = none;
  created_at = 50;
  updated_at = 50;
}

abbrev a_failure : SyncFailure
a_failure = record { class = retryable; message = codes "timeout" }

abbrev a_completion : SyncRunCompletion
a_completion = record {
  outcome = retryable_failure;
  finished_at = 60;
  stats = no_stats;
  failure = some a_failure;
  feed_revision = none;
}

abbrev finished_run : SyncRun
finished_run = record a_run {
  outcome = retryable_failure;
  failure = some a_failure;
  finished_at = some 60;
  updated_at = 60;
}

a_run-IsRun : IsRun a_run
a_run-IsRun = record {
  named = ground arith;
  sourced = ground arith;
  jobbed = ground arith;
  ordered = tt;
  coherent = (refl, refl);
}

from_parts_iff_example : (from_parts finished_run ≡ ok finished_run) ↔ IsRun finished_run
from_parts_iff_example = from_parts_iff finished_run
