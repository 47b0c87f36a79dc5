-- ===== src/Messaging.antt =====
-- app/services/messaging.py: conversations, messages and their pages.
pub mod Rows
pub mod Send
pub mod Read
pub mod Inbox
pub mod Create
pub mod Pages
pub mod Replay
pub mod Staff
pub mod Contacts
mod Examples
