-- ===== src/Arch.antt =====
-- The directory arch/i386/.
pub mod Console
pub mod Keyboard
pub mod Vmap
