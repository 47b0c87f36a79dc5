-- ===== src/Push.antt =====
-- app/services/push.py: device registration, the notification outbox and its delivery worker.
pub mod Rows
pub mod Cancel
pub mod Register
pub mod Enqueue
pub mod Claim
pub mod Finish
pub mod Sender
pub mod Signing
pub mod Invariant
pub mod Keys
pub mod Valid
pub mod Due
pub mod Claims
pub mod Steps
pub mod Lease
pub mod Terminal
pub mod Immutable
pub mod Delay
pub mod Retire
pub mod Notify
mod Examples
