-- ===== src/Cart.antt =====
-- app/services/cart.py: the current cart, its optimistic locking, and the order card.
pub mod Rows
pub mod Service
pub mod Change
pub mod Compatibility
pub mod Serialize
pub mod OrderCard
pub mod Prepare
pub mod Locking
pub mod Requests
pub mod Items
pub mod Upsert
pub mod Review
pub mod Idempotency
pub mod Hazards
pub mod Current
mod Examples
