-- ===== src/Prelude.antt =====
-- The names that the other modules share: the libraries', passed on, and those of the children.
pub mod Tests
pub mod Lists
pub mod Equality
pub mod Pairs
pub mod Members
pub mod Dict
pub mod Sort
pub mod Int64
pub mod ByteOrder
pub mod Fallible
pub mod Action
