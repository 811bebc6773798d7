-- ===== src/Kernel.antt =====
-- The directory kernel/.
pub mod Timer
pub mod Threads
pub mod Pages
pub mod Vm
pub mod Vfs
pub mod Process
pub mod Dev
