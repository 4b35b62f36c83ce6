-- ===== src/Store.antt =====
-- internal/store.
pub mod Types
pub mod Jobs
pub mod Accounts
pub mod Table
pub mod Invariant
pub mod Lookup
pub mod Statements
pub mod Outcomes
pub mod Claims
