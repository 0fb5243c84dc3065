-- ===== src/Smtp.antt =====
-- The SMTP server, smtp/smtpServer.cc.
pub mod Text
pub mod State
pub mod Commands
pub mod Delivery
pub mod Connection
pub mod Protocol
pub mod Valid
pub mod Line
pub mod Dialogue
pub mod External
pub mod Queue
pub mod Senders
pub mod Stored
pub mod Address
pub mod Exchange
