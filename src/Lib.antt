-- ===== src/Lib.antt =====
-- Steam Sales Tray: a Windows tray program with a local cache of a Steam partner's daily sales.
-- A worker thread (src/sync/SalesSyncService.cpp) asks the Steam API which financial dates changed,
-- fetches the sales of each of these dates, adds them up by app, replaces the date in a SQLite
-- database, and advances a high-water mark when all dates are stored. The main window
-- (src/app/App.cpp) hears of it by messages, and shows the sums in a tray icon, its menu and a
-- window of sales. A dialog changes the preferences and the key.
--
-- Which file models which part:
--   Sync/Service, Sync/Worker   src/sync/SalesSyncService.cpp. A pass is a state monad over `State`
--       (the status, the request to clear the cache, the messages posted, the log, the connection
--       and the state of the client); its functions are the sections of RunSynchronization in their
--       order, with Service/Dates the loop over the dates. Worker is the loop around a pass,
--       Worker/Threads the worker beside the other threads.
--   Sync/Cache                  what the cache promises: the abstract steps that a pass refines
--   Sync/Aggregator             src/sync/SalesAggregator.cpp
--   Sync/Notification           BuildNotification of src/sync/SalesSyncService.cpp
--   Sync/Program                a pass with the Steam client that Run gives it
--   Storage/Connection          a connection to SQLite: the tables of src/storage/Migrations.cpp,
--       the tables saved at BEGIN while a transaction is open, and the outcomes of the calls to come
--   Storage/Database, Storage/Queries   the methods of src/storage/Database.cpp, one function each
--   Storage/Migrations          src/storage/Migrations.cpp, Open and Close of
--       src/storage/Database.cpp
--   Storage/SettingsStore       src/storage/SettingsStore.cpp
--   Steam/Client                src/steam/SteamFinancialClient.cpp
--   Steam/Json, Steam/Models    src/steam/SteamJsonParser.cpp, src/steam/SteamModels.h
--   Network/UrlEncoder          src/network/UrlEncoder.cpp
--   Network/WinHttpClient       src/network/WinHttpClient.cpp: a session with its connection, and a
--       GET. Its child Transports makes it the transport of Steam/Client.
--   Security                    src/security/DpapiSecretStore.cpp: Envelope is the format of the file;
--       SecureString is src/security/SecureString.cpp, with the memory that is given back
--   Platform/Files              its file access
--   Platform/Logging            src/platform/Logging.cpp
--   Platform/Paths, Platform/StartupManager, Platform/StringUtil, Platform/TimeUtil,
--   Platform/Win32Error
--       the files of those names in src/platform
--   Tray/TrayIcon, Tray/TrayMenu   src/tray/TrayIcon.cpp, src/tray/TrayMenu.cpp
--   Ui/SalesWindow, Ui/SettingsDialog with Ui/Controls   src/ui/SalesWindow.cpp,
--       src/ui/SettingsDialog.cpp: the state is what the controls hold, and a message of the user is a
--       value
--   App/App                     src/app/App.cpp: the state joins those of the tray icon, the sales
--       window with its connection and preferences, and the worker
--   App/Run                     Run of src/app/App.cpp
--   App/Main, App/SingleInstance   src/app/Main.cpp, src/app/SingleInstance.cpp
--   Shared                      strings as lists of bytes or UTF-16 units, 64-bit words, list
--       functions
--   Tests                       the theorems on concrete inputs
--
-- What is not part of the program is a parameter: the JSON reader (`Yyjson`), WinHTTP (`WinHttp`),
-- the file calls (`FileApi`, `LogFiles`), DPAPI (`Dpapi`), the registry (`Registry`, `RunKey`), the
-- clocks (`Clock`), the shell of the tray (`Shell`), mutexes and windows (`Mutexes`, `Desktop`),
-- WaitForMultipleObjects (`Waits`), and the settings and conversions that a pass reads (`Env`). For
-- SQLite the parameter is the list of outcomes of a connection: each call takes one, and may work,
-- fail, or fail and roll the transaction back. What a statement does when it works is translated
-- from its SQL text. Between the parts, `Transport`, `SteamApi` and `Keys` are the interfaces.
--
-- Numbers: an std::int64_t is its bit pattern, a number below 2 ^ 64, and sums wrap. Fuel: the loop
-- over the pages has the bound of the code, 10,000; a number is printed with 20 digits of fuel,
-- enough below 2 ^ 64; a body of at most n bytes is read in n + 1 rounds, since each but the last
-- reads a byte; a text of n units is redacted in n + 1 rounds, since each shortens what is left; the
-- path of the executable, of at most 32767 units, fits into a buffer of 260 after 7 doublings. All
-- other recursion is on lists.
--
-- Not modelled: the creation of windows and controls and the texts of message boxes, all of them
-- calls of Win32. The other parts take a secret string for its bytes; what becomes of its memory is
-- in Security/SecureString alone. Where the code ignores the result of a call (SQLite's steps of a
-- SELECT, NIM_MODIFY and NIM_SETVERSION, the wait of the worker, the writings to the registry) the
-- call may fail in the model, but for the registry, whose laws are those of one that works.
pub mod Shared
pub mod Platform
pub mod Sync
pub mod Storage
pub mod Network
pub mod Steam
pub mod Security
pub mod Tests
pub mod Tray
pub mod Ui
pub mod App
