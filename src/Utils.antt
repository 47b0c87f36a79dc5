-- ===== src/Utils.antt =====
-- app/utils.py: locales.
pub mod Text
pub mod Locale
pub mod Cursor
pub mod Pagination
pub mod Digits
mod Examples
