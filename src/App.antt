-- ===== src/App.antt =====
-- app/: the start of the program and its main window.
pub mod SingleInstance
pub mod Main
pub mod App
pub mod Run
