-- ===== src/Postgres.antt =====
-- The SQL statements, on the tables of migrations/.
pub mod Scans
pub mod Accounts
pub mod Mints
pub mod Rides
pub mod Guardians
