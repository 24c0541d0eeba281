-- ===== src/Steam.antt =====
-- steam/: the models of the Financial API, its JSON, and the client.
pub mod Models
pub mod Json
pub mod Client
