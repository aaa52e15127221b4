-- ===== src/Hashing.antt =====
-- The hash tables of runtime/c/plant_runtime.c.
pub mod Map
pub mod Ring
pub mod Iterator
pub mod Set
