-- ===== src/Transactions.antt =====
-- cache.go: Store as a transaction over the backing store, all keys or none.
pub mod Storage
pub mod Defs
pub mod Store
pub mod Frames
pub mod Staging
pub mod Preparation
pub mod Publishing
pub mod Rollback
pub mod Atomicity
pub mod Contents
pub mod Separation
pub mod Commit
pub mod Stored
pub mod Holdings
pub mod Accounts
pub mod Reservations
