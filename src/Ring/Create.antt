-- ===== src/Ring/Create.antt =====
-- smon_create_rb, smon_destroy_rb and smon_release_rb.
mod Unwind
mod Fresh
mod Release
unfoldable pub use Unwind.*
pub use Fresh.*
pub use Release.*
