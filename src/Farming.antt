-- ===== src/Farming.antt =====
-- The farming contract, snails_farming/src: its farms, its farmers, the names of seeds and farms, and
-- the contract.
pub mod Farm
pub mod Farmer
pub mod Names
pub mod Contract
mod Examples
