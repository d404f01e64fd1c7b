-- ===== src/Storage.antt =====
-- internal/storage: the pinned assets of the rides.
pub mod Cache
pub mod Reuse
