-- ===== src/Domain/Job.antt =====
-- Durable jobs, src/domain/job.rs.
mod Types
mod Transitions
mod Persisted
pub mod Validity
pub mod History
pub mod Guards
pub mod Fencing
pub mod Budget
pub mod Lifecycle
unfoldable pub use Types.*
unfoldable pub use Transitions.*
unfoldable pub use Persisted.*
