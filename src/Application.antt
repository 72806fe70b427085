-- ===== src/Application.antt =====
-- The application layer, src/application.
pub mod JobService
pub mod Worker
pub mod QrLogin
pub mod AssetArchive
pub mod SyncService
pub mod AuthService
