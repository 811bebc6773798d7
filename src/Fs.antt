-- ===== src/Fs.antt =====
-- The directory fs/.
pub mod Tarfs
