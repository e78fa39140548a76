-- ===== src/Exchange/Curve.antt =====
-- The StableSwap calculator, snails_exchange/src/snails.rs: its parameters, and the conversion of
-- balances to a common precision. The children model its methods.
pub mod Ramp
pub mod Invariant
pub mod Status
pub mod Ledger
pub mod Swap
pub mod Deposit
pub mod Withdraw
pub mod Imbalance
pub mod OneCoin
