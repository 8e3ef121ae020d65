-- ===== src/Handler.antt =====
-- inc/BusinessHandler.h and src/BusinessHandler.cpp: what the server does with each message.
pub mod State
pub mod Account
pub mod Sessions
pub mod Keeps
pub mod Scripts
pub mod Runs
pub mod Contacts
pub mod Chat
pub mod Dispatch
pub mod Presence
