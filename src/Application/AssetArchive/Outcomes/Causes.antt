-- ===== src/Application/AssetArchive/Outcomes/Causes.antt =====
-- That a repair's fetch fails with its cause, src/application/asset_archive_service.rs.
