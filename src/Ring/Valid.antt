-- ===== src/Ring/Valid.antt =====
-- When a ring buffer is well formed, and where its two ends are.
mod Geometry
mod Keep
pub use Geometry.*
pub use Keep.*
