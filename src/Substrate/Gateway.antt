-- ===== src/Substrate/Gateway.antt =====
-- appshak_substrate/tool_gateway.py: the gateway of the agents' tools.
pub mod Request
pub mod Execute
pub mod Handle
