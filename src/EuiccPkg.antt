-- ===== src/EuiccPkg.antt =====
-- euiccpkg: what a package means, and what its success does to the stored state.
pub mod Operation
pub mod Result
pub mod State
pub mod Association
pub mod Outcome
pub mod Verify
pub mod RawTlv
pub mod Service
