-- ===== src/Journal.antt =====
-- engine/journal.py: balanced vouchers for reconciled settlements, and their export for Tally.
mod Defs
pub mod Balance
pub mod Escape
mod Tests
pub mod Waterfall
unfoldable pub use Defs.*
