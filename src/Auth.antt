-- ===== src/Auth.antt =====
-- app/services/auth.py with app/security.py, app/google_identity.py and app/dependencies.py: accounts,
-- sessions, tokens, and the principal of a request.
pub mod Rows
pub mod Tokens
pub mod Revoke
pub mod Issue
pub mod Register
pub mod Identity
pub mod Google
pub mod Principal
pub mod Handlers
pub mod Separation
pub mod Rotation
pub mod Access
pub mod Upgrade
pub mod Entry
pub mod Login
pub mod Registered
pub mod Emails
pub mod Linking
pub mod Trust
mod Examples
mod AccountExamples
mod WebExamples
