-- ===== src/Voucher.antt =====
-- internal/voucher: vouchers and participants.
pub mod Service
pub mod Keeps
pub mod History
pub mod Once
pub mod Wallet
pub mod Refused
pub mod Link
pub mod Links
pub mod Routes
pub mod Claims
pub mod Purchases
