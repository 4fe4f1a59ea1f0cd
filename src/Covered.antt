-- ===== src/Covered.antt =====
-- engine/covered.py: the identity of settlement rows and the resolution of covered row ids.
mod Defs
pub mod Resolve
pub mod Canonical
mod Tests
unfoldable pub use Defs.*
