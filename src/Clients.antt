-- ===== src/Clients.antt =====
-- The registry of the clients: their profiles, and the file in which these are kept.
pub mod Profile
pub mod Registry
pub mod Persisted
mod Tests
