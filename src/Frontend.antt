-- ===== src/Frontend.antt =====
-- The texts that the frontend servers take apart: frontend/loginHelper.cc.
pub mod Url
pub mod Login
pub mod Mail
pub mod Multipart
pub mod Http
pub mod Reading
pub mod Mailbox
