-- ===== src/Platform.antt =====
-- platform/: number formatting, dates, and the access to files.
pub mod StringUtil
pub mod Files
pub mod TimeUtil
pub mod Logging
pub mod Paths
pub mod Win32Error
pub mod StartupManager
