-- ===== src/Ring/Write.antt =====
-- smon_rb_write as a bounded queue of samples.
mod Memory
mod Refine
mod Always
mod Accept
pub use Refine.*
pub use Always.*
unfoldable pub use Accept.*
