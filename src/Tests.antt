-- ===== src/Tests.antt =====
-- The theorems at concrete inputs, one file for each part of the library.
mod Containers
mod Registry
mod Hashing
mod Storms
mod Frontend
mod Scheduling
mod Memory
mod Imports
mod Arc
mod Missions
mod Set
mod Arena
