-- ===== src/Scheduling.antt =====
-- The ready queue and the timer list of the task engine in runtime/c/plant_runtime.c.
pub mod Ready
pub mod Timers
