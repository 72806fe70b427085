-- ===== src/Domain/Sync/Failures.antt =====
-- Failure summaries of synchronization runs, src/domain/sync.rs.
use werrss.Common.{
  ◌≤◌, ◌≡◌, false, Text, trim, trim-trim, is_blank, is_blank-trim, utf8_len, ok, arith,
}
use werrss.Domain.Sync.{SyncFailureClass, SyncFailure, new_failure}

-- A failure that `SyncFailure::new` accepts keeps its class, and has the trimmed message, which is
-- not blank and has at most 4096 bytes.
pub new_failure-accepts :
    (class : SyncFailureClass) (given : Text) (f : SyncFailure)
    → new_failure class given ≡ ok f
    → (f.class ≡ class)
      × (f.message ≡ trim given)
      × (trim f.message ≡ f.message)
      × (is_blank f.message ≡ false)
      × (utf8_len f.message ≤ 4096)
unfolding new_failure
new_failure-accepts class given f h =
    let named : f.message ≡ trim given = ground arith in
    (
      ground arith,
      named,
      rw named (trim-trim given),
      rw (named, is_blank-trim given) (ground arith),
      ground arith,
    )
