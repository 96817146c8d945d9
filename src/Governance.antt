-- ===== src/Governance.antt =====
-- The governance of the agents: appshak_governance/.
pub mod Ledger
pub mod Floats
pub mod Registry
pub mod Relationship
pub mod Boardroom
pub mod Outcomes
pub mod WaterCooler
