-- ===== src/Python.antt =====
-- Python's texts, dynamic values and dictionaries, and actions that change a state and may raise.
pub mod Text
pub mod Value
pub mod Exec
