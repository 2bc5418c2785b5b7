-- ===== src/Bounds.antt =====
-- src/bounds: the node cache and the bounds on the value function.
pub mod Cache
pub mod Core
pub mod Point
pub mod Pair
pub mod PointPair
pub mod Examples
