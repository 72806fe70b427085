-- ===== src/Archive.antt =====
-- The archive of article content, src/archive.
pub mod UrlRewriter
pub mod Sanitizer
pub mod AssetStore
