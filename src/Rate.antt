-- ===== src/Rate.antt =====
-- The sliding window that the two request-per-minute limits share.
pub mod Window
