-- ===== src/Storage.antt =====
-- storage/: the local cache and the settings.
pub mod Models
pub mod SettingsStore
pub mod Connection
pub mod Database
pub mod Migrations
pub mod Queries
