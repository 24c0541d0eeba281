-- ===== src/Tray.antt =====
-- tray/: the icon in the notification area, and its menu.
pub mod TrayIcon
pub mod TrayMenu
