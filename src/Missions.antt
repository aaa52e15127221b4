-- ===== src/Missions.antt =====
-- The mission modes of runtime/c/plant_runtime.c: the mode stack with its guards, the bump heap of
-- FAST, the worker pool and channels of SAFE, the router of SMART, and the audit log.
pub mod Modes
pub mod Fast
pub mod Pool
pub mod Channel
pub mod Router
pub mod Audit
