-- ===== src/Solver.antt =====
-- engine/solver.py: the joint assignment of all credits of a period.
pub mod Graph
pub mod Search
pub mod Fuel
pub mod Induct
pub mod Costs
pub mod Searches
pub mod Optimal
pub mod Plans
pub mod Assign
pub mod Contested
pub mod Binding
pub mod Exclusive
mod Tests
