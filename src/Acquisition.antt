-- ===== src/Acquisition.antt =====
-- Acquisition of articles, src/acquisition.
pub mod Pacing
