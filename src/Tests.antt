-- ===== src/Tests.antt =====
-- Concrete runs of the modelled code.
pub mod Data
pub mod Stores
pub mod JobRuns
pub mod StoreRuns
pub mod ServiceRuns
pub mod DomainRuns
pub mod PacingRuns
pub mod ArchiveRuns
pub mod WorkerRuns
pub mod LeaseRuns
pub mod AssetRuns
pub mod AssetStoreRuns
pub mod ArticleRuns
pub mod SanitizerRuns
pub mod QrRuns
pub mod SyncServiceRuns
pub mod AuthRuns
pub mod CipherRuns
