-- ===== src/Containers.antt =====
-- The native containers of runtime/c/plant_runtime.c: the growing ring queue, the growing stack and
-- the dynamic array, each over opaque pointer-sized values.
pub mod Queue
pub mod Stack
pub mod Array
pub mod PairMap
