-- ===== src/Balancer.antt =====
-- The load balancer: frontend/loadbalancer.cc.
pub mod State
pub mod Worker
pub mod Choice
pub mod Timeout
