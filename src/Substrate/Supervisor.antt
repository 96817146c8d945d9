-- ===== src/Substrate/Supervisor.antt =====
-- appshak_substrate/supervisor.py: the workers, their liveness and their restarts.
pub mod State
pub mod Control
pub mod Restart
pub mod Monitor
pub mod Bounds
pub mod Keeps
pub mod Run
pub mod Pass
pub mod Bounded
pub mod Whole
