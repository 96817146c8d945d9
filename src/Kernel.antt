-- ===== src/Kernel.antt =====
-- The kernel of the agents: appshak/.
pub mod Substring
pub mod Events
pub mod Safeguards
pub mod State
pub mod Chief
pub mod Route
pub mod Life
pub mod Replay
