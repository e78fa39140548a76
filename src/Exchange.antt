-- ===== src/Exchange.antt =====
-- The exchange contract, snails_exchange/src.
pub mod Fees
pub mod Curve
pub mod Pool
pub mod Account
pub mod Contract
mod Examples
