-- ===== src/FeeGst.antt =====
-- engine/feegst.py: the GST on fees that stands inside the reconciled rows.
mod Defs
pub mod Total
mod Tests
unfoldable pub use Defs.*
