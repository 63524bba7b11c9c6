-- ===== src/Engine.antt =====
-- The strategy engine, class `GridEngine` of packages/gridcore/src/gridcore/engine.py.
pub mod Types
pub mod Survivors
pub mod Place
pub mod Handle
pub mod Cancels
pub mod Orders
pub mod Track
pub mod Stamped
pub mod Pending
mod Tests
