-- ===== src/Master.antt =====
-- The master of the key-value servers: backend/kvstore/master.cc.
pub mod State
pub mod Groups
pub mod Request
pub mod Heartbeat
pub mod Expiry
pub mod Console
pub mod Mail
pub mod Entries
pub mod Obeyed
pub mod Takeover
