-- ===== src/WorldModel/Client.antt =====
-- Namespace world_model::client: the message types, and one module for each group of messages.
pub mod Id
pub mod Request
pub mod Alias
pub mod Ticket
pub mod Data
pub mod Search
pub mod Preference
pub mod Rejects
pub mod Cut
