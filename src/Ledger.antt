-- ===== src/Ledger.antt =====
-- engine/ledger.py: the cross-check of the merchant's order ledger with the proven settlements.
mod Defs
pub mod Classes
pub mod Reports
pub mod Recall
mod Tests
unfoldable pub use Defs.*
