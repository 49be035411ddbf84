-- ===== src/Samples.antt =====
-- A concrete database client, cluster and data, on which the theorems are applied.
mod Queries
mod Data
pub use Queries.*
pub use Data.*
