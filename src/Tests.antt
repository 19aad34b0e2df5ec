-- ===== src/Tests.antt =====
-- Witnesses.
pub mod World
pub mod Texts
pub mod Calls
pub mod Transactions
pub mod Sharing
pub mod Documents
pub mod Programs
