-- ===== src/Libk.antt =====
-- The directory libk/.
pub mod Tree
pub mod ArrayMap
pub mod Strings
pub mod Stream
pub mod Destructor
pub mod Exception
pub mod Vector
pub mod Slab
pub mod Map
pub mod Arena
