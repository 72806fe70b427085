-- ===== src/Persistence/JobStore.antt =====
-- The in-memory job repository, src/persistence/repositories/job_repository.rs.
mod Table
mod Operations
mod Isolation
pub mod Maps
pub mod Invariant
pub mod Order
pub mod Selection
pub mod Claiming
pub mod Batches
pub mod Recovery
pub mod History
pub mod Rollback
unfoldable pub use Table.*
unfoldable pub use Operations.*
unfoldable pub use Isolation.*
