-- ===== src/Persistence.antt =====
-- The persistence layer, src/persistence: the in-memory repositories of jobs and of account leases.
pub mod JobStore
pub mod AccountLeases
pub mod CredentialStore
