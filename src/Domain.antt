-- ===== src/Domain.antt =====
-- The storage-independent domain model, src/domain.
pub mod Job
pub mod Article
pub mod UrlPolicy
pub mod Credentials
pub mod Sync
pub mod Source
pub mod Pacing
