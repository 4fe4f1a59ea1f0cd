-- ===== src/Subsets.antt =====
-- engine/bounded_subsets.py: the bounded subset-sum search behind every set-sum verdict.
pub mod Combinations
pub mod Distinct
pub mod Exact
pub mod Legacy
pub mod LegacySound
pub mod Total
mod Tests
mod Defs
unfoldable pub use Defs.*
