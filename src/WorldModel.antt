-- ===== src/WorldModel.antt =====
-- world_model_protocol.hpp and world_model_protocol.cpp: the messages between clients, solvers and
-- the world model.
pub mod Types
pub mod Client
pub mod Solver
pub mod Handshake
pub mod KeepAlive
