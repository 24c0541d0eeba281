-- ===== src/Tests.antt =====
-- The theorems on concrete inputs.
pub mod Data
pub mod Delivering
pub mod Storing
pub mod Sending
pub mod Keeping
pub mod Syncing
pub mod Passing
pub mod Threading
pub mod Talking
pub mod Showing
pub mod Saving
pub mod Starting
pub mod Asking
pub mod Guarding
