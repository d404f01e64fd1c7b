-- ===== src/Minter.antt =====
-- internal/minter: the resolution of a day, and its mints.
pub mod Resolver
pub mod Batch
pub mod Passes
pub mod Batches
pub mod Ledger
pub mod Days
pub mod Transactions
pub mod Reruns
pub mod Routes
pub mod Served
pub mod DayRuns
pub mod Custody
pub mod Unchecked
