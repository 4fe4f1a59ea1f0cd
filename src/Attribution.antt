-- ===== src/Attribution.antt =====
-- engine/attribute.py and what it calls: the rail of every bank credit, from weighted evidence.
pub mod Texts
pub mod Evidence
pub mod Packs
pub mod Signals
pub mod Combine
pub mod Challenger
pub mod Setsum
pub mod Line
pub mod Splits
pub mod Rules
pub mod Pipeline
pub mod Tie
pub mod SetsumSound
pub mod Scores
pub mod Gate
pub mod IndexAgree
pub mod SplitLegs
pub mod SplitUnique
pub mod Lifted
pub mod LineKeys
pub mod RuleLaws
pub mod Runs
pub mod Proven
pub mod Total
pub mod Challenges
pub mod Examples
mod Tests
