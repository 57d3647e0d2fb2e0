-- ===== src/Transform.antt =====
-- common/src/transform: the row transforms.
pub mod Columns
pub mod Map
pub mod Grouping
pub mod Metrics
pub mod Aggregate
pub mod Objects
