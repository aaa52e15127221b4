-- ===== src/Registry.antt =====
-- The fixed tables of runtime/c/plant_runtime.c that are searched from the front: held locks, closed
-- descriptors and named callbacks.
pub mod Locks
pub mod Fds
pub mod Callbacks
