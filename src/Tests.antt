-- ===== src/Tests.antt =====
-- Runs of the model on concrete servers, and the theorems applied to them.
pub mod Sample
pub mod Replicas
pub mod Commands
pub mod Recoveries
pub mod Masters
pub mod Balancers
pub mod Frontends
pub mod Mails
pub mod Senders
pub mod Sockets
pub mod Queues
pub mod Pages
pub mod Mailboxes
