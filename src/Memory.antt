-- ===== src/Memory.antt =====
-- storage/memory/store.go, the in-memory implementation of the persistence boundary.
pub mod State
pub mod Devices
pub mod Profiles
pub mod Operations
pub mod Results
pub mod Configs
pub mod Calls
pub mod Queue
pub mod Counters
pub mod Isolation
pub mod Api
pub mod Notifications
