-- ===== src/Tests.antt =====
-- Concrete inputs, and the theorems applied to them.
pub mod Data
mod MailStore
mod Tools
mod Workers
mod Agents
mod Kernel
mod Governance
mod Projection
