-- ===== src/Substrate/MailStore.antt =====
-- appshak_substrate/mailstore_sqlite.py over the tables of schema.sql.
pub mod Tables
pub mod Events
pub mod Claim
pub mod Settle
pub mod Keys
pub mod Audit
pub mod Lookup
pub mod Select
pub mod Invariant
pub mod History
pub mod Exclusive
pub mod Delivery
pub mod Settlement
pub mod Final
pub mod Once
pub mod Reading
