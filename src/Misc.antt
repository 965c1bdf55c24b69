-- ===== src/Misc.antt =====
-- Misc/.
pub mod Timer
