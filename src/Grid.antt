-- ===== src/Grid.antt =====
-- The grid of price levels, class `Grid` of packages/gridcore/src/gridcore/grid.py.
-- A price is a float (Float); the callback `on_change` is the log of the calls made to it.
pub mod Level
pub mod Build
pub mod Check
pub mod Update
mod Tests
pub use Level.*
