-- ===== src/WorldModel/Solver.antt =====
-- Namespace world_model::solver: the message types, and one module for each group of messages.
pub mod Id
pub mod Announce
pub mod Demand
pub mod Solution
pub mod Change
pub mod Rejects
pub mod Cut
