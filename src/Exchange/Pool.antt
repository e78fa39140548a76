-- ===== src/Exchange/Pool.antt =====
-- The pool of the exchange, snails_exchange/src/simple_pool.rs.
pub mod State
pub mod Liquidity
pub mod Trade
pub mod History
pub mod Holdings
