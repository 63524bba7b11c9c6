-- ===== src/Engine/Cancels.antt =====
-- Who is cancelled in one round of `_place_grid_orders`: the children follow the orders through the
-- sort and the buckets, and through the two later loops.
pub mod Buckets
pub mod Levels
pub mod Once
