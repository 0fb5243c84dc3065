-- ===== src/Kvstore.antt =====
-- The key-value store of backend/kvstore: helper.h and kvstore.cc.
pub mod Config
pub mod Split
pub mod Table
pub mod Server
pub mod Forward
pub mod Handle
pub mod Recovery
pub mod Framing
pub mod Connection
pub mod Status
pub mod Admin
pub mod Cluster
pub mod Alone
pub mod Stale
