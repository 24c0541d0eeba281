-- ===== src/Ui.antt =====
-- ui/: the sales window and the settings dialog.
pub mod SalesWindow
pub mod Controls
pub mod SettingsDialog
