-- ===== src/Tests/Data.antt =====
-- Jobs, calls and clocks that the tests share, for src/domain/job.rs.
use werrss.Common.{
  ℕ, ◌+◌, pos, negsuc, refl, none, some, Text, codes, is_blank, trim, trim_start, arith,
}
use werrss.Domain.Job.{
  Job, source_sync, feed_rebuild, NewJob, queued, running, succeeded, Clock, IsExact,
  validate_persisted_state,
}
use werrss.Domain.Job.Validity.{IsValid, validate_sound}

-- A clock whose range has no end.
abbrev pub test_clock : Clock
test_clock = record {
  checked_add_signed = λ t d. elim d [ pos n ↦ some (t + n) | negsuc n ↦ none ];
}

pub test_clock-IsExact : IsExact test_clock
test_clock-IsExact = record { exact = λ t n u h. ground arith }

abbrev pub worker_a : Text
worker_a = codes "worker-a"

abbrev pub worker_b : Text
worker_b = codes "worker-b"

abbrev pub message : Text
message = codes "timeout"

abbrev pub new_job : NewJob ℕ
new_job = record {
  job_type = source_sync;
  source_id = some 9;
  priority = pos 5;
  run_after = 10;
  max_attempts = 3;
  payload = 0;
  dedupe_key = codes "source-sync:9";
  now = 8;
}

abbrev pub queued_job : Job ℕ
queued_job = record {
  id = 1;
  job_type = source_sync;
  source_id = some 9;
  status = queued;
  priority = pos 5;
  run_after = 10;
  claim_count = 0;
  failure_count = 0;
  max_attempts = 3;
  lease_owner = none;
  lease_token = none;
  lease_until = none;
  heartbeat_at = none;
  started_at = none;
  finished_at = none;
  last_error = none;
  payload = 0;
  dedupe_key = codes "source-sync:9";
  created_at = 8;
  updated_at = 8;
}

abbrev pub other_job : Job ℕ
other_job = record queued_job {
  id = 2;
  job_type = feed_rebuild;
  run_after = 12;
  dedupe_key = codes "feed-rebuild:9";
}

-- Held by `worker_a` under the token 77 until the instant 40.
abbrev pub leased_job : Job ℕ
leased_job = record queued_job {
  status = running;
  claim_count = 1;
  lease_owner = some worker_a;
  lease_token = some 77;
  lease_until = some 40;
  heartbeat_at = some 15;
  started_at = some 15;
  updated_at = 15;
}

abbrev pub done_job : Job ℕ
done_job = record queued_job {
  status = succeeded;
  claim_count = 1;
  started_at = some 15;
  finished_at = some 20;
  updated_at = 20;
}

pub queued_job-IsValid : IsValid queued_job
unfolding validate_persisted_state is_blank trim trim_start
queued_job-IsValid = validate_sound queued_job refl

pub other_job-IsValid : IsValid other_job
unfolding validate_persisted_state is_blank trim trim_start
other_job-IsValid = validate_sound other_job refl

pub leased_job-IsValid : IsValid leased_job
unfolding validate_persisted_state is_blank trim trim_start
leased_job-IsValid = validate_sound leased_job refl
