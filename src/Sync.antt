-- ===== src/Sync.antt =====
-- sync/: the aggregation of one date's records, and the worker that runs a synchronisation.
pub mod Aggregator
pub mod Cache
pub mod Notification
pub mod Service
pub mod Worker
pub mod Program
