-- ===== src/Reconcile.antt =====
-- engine/reconcile.py: the reconciliation of the proven Razorpay credits with the settlement report.
pub mod Index
pub mod IndexLaws
mod Defs
pub mod Coverage
pub mod Total
pub mod Passes
pub mod Claims
pub mod Safety
pub mod Outcome
pub mod Duplicates
pub mod Contested
pub mod Slice
mod Tests
unfoldable pub use Defs.*
