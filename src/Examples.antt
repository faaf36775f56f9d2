-- ===== src/Examples.antt =====
-- Runs of the theorems on concrete stores and packages.
pub mod Data
pub mod Queue
pub mod Notifications
pub mod Package
pub mod Eims
pub mod Results
pub mod Spans
pub mod Tenants
pub mod Service
pub mod Objects
pub mod Esipa
pub mod Polls
pub mod Depths
