-- ===== src/Frontend/Http.antt =====
-- The HTTP server of the frontend: `thread_worker` of frontend/frontendserver.cc.
pub mod State
pub mod Account
pub mod Files
pub mod Actions
pub mod Request
pub mod Worker
pub mod Store
pub mod Password
