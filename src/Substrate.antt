-- ===== src/Substrate.antt =====
-- The durable substrate: appshak_substrate/.
pub mod Types
pub mod MailStore
pub mod Policy
pub mod Gateway
pub mod Supervisor
pub mod Runtime
pub mod Worker
pub mod Bus
