-- ===== src/Memory.antt =====
-- Memory management in runtime/c/plant_runtime.c.
pub mod Slab
pub mod Arena
pub mod Arc
