-- ===== src/App/Run.antt =====
-- App::Run of app/App.cpp: the opening of the cache with its recovery, the icon, the messages up to
-- WM_QUIT, and the end of the program.
use steam_sales_tray.Shared.{ℕ, Bool, true, false, List, [], ◌∷◌, ◌++◌, if◌then◌else◌}
use steam_sales_tray.Shared.Bytes.{Wide, codes}
use steam_sales_tray.Storage.Connection.{Connection}
use steam_sales_tray.Storage.Migrations.{open_database, close}
use steam_sales_tray.Sync.Service.Monad.{SteamApi}
use steam_sales_tray.Sync.Worker.{Creates, start_worker, stop_worker}
use steam_sales_tray.Tray.TrayIcon.{Shell, add, remove_icon}
use steam_sales_tray.Ui.SalesWindow.{Surroundings, handle_window_message, destroyed}
use steam_sales_tray.App.App.{App, Answers, AppMessage, ready_text, handle_message}

-- the answer to the message box about a cache that could not be opened
pub data Choice : Type 0 where
  rebuild open_folder continue_without : Choice

-- What Run gets of the system: whether the window class and the window were made, the path of the
-- cache, what the deletion of a file leaves of it, the answer of the message box, and which events
-- of the worker can be created. `window` and `icon` are the handles of the main window and its icon.
pub record Launch : Type 0 where
  pub has_window_made : Bool
  pub database_path : Wide
  pub delete_file : Wide → Connection → Connection
  pub choice : Choice
  pub creates : Creates
  pub window : ℕ
  pub icon : ℕ

abbrev pub wm_app_tray : ℕ
wm_app_tray = 32769

unfoldable pub delete_cache : Launch → Connection → Connection
delete_cache l c =
    l.delete_file (l.database_path ++ codes "-shm")
      (l.delete_file (l.database_path ++ codes "-wal") (l.delete_file l.database_path c))

-- the second attempt, where the user wants the cache rebuilt
unfoldable pub recover_cache : Launch → Bool × Connection → Bool × Connection
unfolding delete_cache
recover_cache l (true, c) = (true, c)
recover_cache l (false, c) = elim l.choice [
  | rebuild ↦ open_database (delete_cache l c)
  | _ ↦ (false, c)
]

unfoldable pub open_cache : Launch → Connection → Bool × Connection
unfolding recover_cache
open_cache l c = recover_cache l (open_database c)

module _ (env : Surroundings) (shell : Shell) (api : SteamApi) where
  unfoldable pub start_app : Launch → App env shell api → App env shell api
  unfolding open_cache
  start_app l a =
      let (opened, c) = open_cache l a.view.conn in
      let tip = ready_text env shell api a.has_stored_key in
      let (ok, t, s) = add shell l.window wm_app_tray l.icon tip a.tray a.sys in
      record a {
        view = record a.view { conn = c };
        db_open = opened;
        tray = t;
        sys = s;
        worker = (a.worker.0, (start_worker l.creates a.worker.1).1);
      }

  -- the messages as GetMessageW gives them, each with what the user does while it is handled
  unfoldable pub run_messages :
      List (Answers env shell api × AppMessage) → App env shell api → App env shell api
  run_messages [] a = a
  run_messages ((n, m) ∷ ms) a = run_messages ms (handle_message env shell api n m a)

  -- the worker is stopped, the sales window destroyed, the icon removed and the cache closed
  unfoldable pub shut_down : App env shell api → App env shell api
  shut_down a =
      let v = if a.has_window then handle_window_message env destroyed a.view else a.view in
      let (t, s) = remove_icon shell a.tray a.sys in
      record a {
        view = record v { conn = close v.conn };
        has_window = false;
        worker = (a.worker.0, stop_worker a.worker.1);
        tray = t;
        sys = s;
      }

  -- the exit code, and the state at the end
  unfoldable pub run_app :
      Launch → List (Answers env shell api × AppMessage) → App env shell api → ℕ × App env shell api
  unfolding start_app run_messages shut_down
  run_app l ms a =
      if l.has_window_made then (0, shut_down (run_messages ms (start_app l a))) else (1, a)
