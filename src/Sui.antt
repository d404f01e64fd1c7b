-- ===== src/Sui.antt =====
-- internal/sui: the client of the chain. The Sui SDK and the cryptography are parameters.
pub mod Encode
pub mod Wallet
pub mod Retry
pub mod Client
pub mod Reader
pub mod Bounds
pub mod Answers
pub mod Mints
pub mod Queries
pub mod Pages
