-- ===== src/App/App.antt =====
-- app/App.cpp: the main window. It owns the tray icon, the sales window and its connection to the
-- database, hears of the worker by messages, and asks the worker for its status. The shell, the
-- message boxes, the menu and the dialog's commands are parameters.
pub mod KeyTest
pub mod Tooltip
pub mod Settings
use steam_sales_tray.Shared.{
  ℕ, Bool, true, false, not, ◌&&◌, ◌||◌, Option, none, some, List, [], ◌∷◌, ◌++◌, is_empty, ◌==◌,
  if◌then◌else◌,
}
use steam_sales_tray.Shared.Bytes.{Bytes, Wide, codes}
use steam_sales_tray.Shared.Word.{Int64}
use steam_sales_tray.Platform.StringUtil.{format_thousands}
use steam_sales_tray.Platform.TimeUtil.{steam_today, steam_date_days_ago}
use steam_sales_tray.Steam.Models.{ChangedDates}
use steam_sales_tray.Steam.Client.{FinancialResult, success, auth}
use steam_sales_tray.Storage.Connection.{Connection}
use steam_sales_tray.Storage.Queries.{sum_for_date, sum_for_range, sum_lifetime}
use steam_sales_tray.Storage.SettingsStore.{get_hide_lifetime}
use steam_sales_tray.Sync.Service.Monad.{
  SyncStatus, missing_api_key, idle, syncing, offline, authentication_failed, api_error,
  parse_error, database_error, SteamApi, State, Message, totals_changed,
}
use steam_sales_tray.Sync.Worker.{
  Events, request_manual_refresh, notify_settings_changed, request_clear_cache,
}
use steam_sales_tray.Tray.TrayIcon.{Shell, TrayIcon, recreate, set_tooltip, show_balloon, set_focus}
use steam_sales_tray.Tray.TrayMenu.{
  Command, view_sales, refresh_now, settings, open_financials, about, exit, SummaryTotals,
}
use steam_sales_tray.Ui.SalesWindow.{
  Surroundings, View, create_children, show_and_focus, refresh, on_settings_changed,
}
use steam_sales_tray.Ui.Controls.{KeyTestResult, SettingsOutcome}

-- what the tray icon tells the main window
pub data TrayEvent : Type 0 where
  selected context_menu other_event : TrayEvent

-- the messages of HandleMessage; a registered message is one only where its number is not 0
pub data AppMessage : Type 0 where
  app_tray : TrayEvent → AppMessage
  taskbar_created show_sales_requested show_settings_requested refresh_requested : AppMessage
  from_worker : Message → AppMessage
  command : Command → AppMessage
  destroyed : AppMessage

-- what is shown besides the windows
pub data Effect : Type 0 where
  opened_financials shown_about destroyed_window posted_quit : Effect

abbrev pub no_totals : SummaryTotals
no_totals = record {
  today = codes "-";
  yesterday = codes "-";
  week = codes "-";
  month = codes "-";
  lifetime = codes "-";
  show_lifetime = true;
}

module _ (env : Surroundings) (shell : Shell) (api : SteamApi) where
  -- The connection is that of the view: the sales window has a pointer to it. `worker` is what the
  -- worker shares, `next` the outcomes of the dialogs and the commands of the menus to come.
  pub record App : Type 0 where
    pub view : View env
    pub has_window : Bool
    pub tray : TrayIcon
    pub sys : shell.Sys
    pub db_open : Bool
    pub worker : State api.Net × Events
    pub has_stored_key : Bool
    pub effects : List Effect

  -- What the user does in the dialog and the menu, which are modal: the outcome of the dialog and
  -- the preferences after it, whether a key is stored then, and the command that was chosen.
  pub record Answers : Type 0 where
    pub outcome : SettingsOutcome
    pub hive_after : env.reg.Hive
    pub key_after : Bool
    pub chosen : Command

  unfoldable pub ready_text : Bool → Wide
  ready_text has_key =
      if has_key then codes "Steam Sales - Ready" else codes "Steam Sales - API key required"

  unfoldable pub on_conn : {A : Type 0} → (Connection → A × Connection) → App → A × App
  on_conn f a = let (x, c) = f a.view.conn in (x, record a { view = record a.view { conn = c } })

  unfoldable pub show_tooltip : Wide → App → App
  show_tooltip text a =
      let (t, s) = set_tooltip shell text a.tray a.sys in record a { tray = t; sys = s }

  unfoldable pub update_tooltip_for_key_state : App → App
  unfolding ready_text show_tooltip
  update_tooltip_for_key_state a = show_tooltip (ready_text a.has_stored_key) a

  -- the text for a pass that has ended well
  unfoldable pub idle_text : App → Wide × App
  unfolding on_conn
  idle_text a =
      let (today, a1) = on_conn (sum_for_date (steam_today env.clock)) a in
      let text = codes "Steam Sales - Today: " ++ format_thousands today in
      let (lifetime, a2) = on_conn sum_lifetime a1 in
      if not a.db_open
      then (codes "Steam Sales", a)
      else if get_hide_lifetime env.reg a.view.hive
      then (text, a1)
      else (text ++ (codes " | Lifetime: " ++ format_thousands lifetime), a2)

  unfoldable pub tray_text : SyncStatus → App → Wide × App
  unfolding idle_text
  tray_text status a = elim status [
    | missing_api_key ↦ (codes "Steam Sales - API key required", a)
    | syncing ↦ (codes "Steam Sales - Updating…", a)
    | authentication_failed ↦ (codes "Steam Sales - Check API key", a)
    | offline ↦ (codes "Steam Sales - Update failed", a)
    | api_error ↦ (codes "Steam Sales - Update failed", a)
    | parse_error ↦ (codes "Steam Sales - Update failed", a)
    | database_error ↦ (codes "Steam Sales - Update failed", a)
    | idle ↦ idle_text a
  ]

  -- `sync_.GetStatus()` and the tooltip for it
  unfoldable pub update_tray : App → App
  unfolding tray_text show_tooltip
  update_tray a = let (text, a') = tray_text a.worker.0.status.status a in show_tooltip text a'

  unfoldable pub maybe_show_notification : App → App
  maybe_show_notification a =
      let notification = a.worker.0.status.notification in
      if is_empty notification then a else record a {
        sys = show_balloon shell (codes "Steam sales updated") notification a.tray a.sys;
      }

  unfoldable pub compute_summary : App → SummaryTotals × App
  unfolding on_conn
  compute_summary a =
      let today = steam_today env.clock in
      let (n1, a1) = on_conn (sum_for_date today) a in
      let (n2, a2) = on_conn (sum_for_date (steam_date_days_ago env.clock 1)) a1 in
      let (n3, a3) = on_conn (sum_for_range (steam_date_days_ago env.clock 6) today) a2 in
      let (n4, a4) = on_conn (sum_for_range (steam_date_days_ago env.clock 29) today) a3 in
      let (n5, a5) = on_conn sum_lifetime a4 in
      let totals = record no_totals {
        today = format_thousands n1;
        yesterday = format_thousands n2;
        week = format_thousands n3;
        month = format_thousands n4;
      } in
      if not a.db_open
      then (no_totals, a)
      else if get_hide_lifetime env.reg a.view.hive
      then (record totals { show_lifetime = false }, a4)
      else (record totals { lifetime = format_thousands n5 }, a5)

  -- EnsureCreated makes the window at the first time
  unfoldable pub on_show_sales : App → App
  on_show_sales a =
      let created = if a.has_window then a.view else create_children env a.view in
      record a { view = show_and_focus env created; has_window = true }

  unfoldable pub refresh_window : App → App
  refresh_window a = if a.has_window then record a { view = refresh env a.view } else a

  -- what the outcome of the dialog asks of the worker
  unfoldable pub apply_outcome : SettingsOutcome → App → App
  apply_outcome o a =
      let (w, e) = a.worker in
      if o.cache_cleared
      then record a { worker = request_clear_cache api (w, e) }
      else if o.key_changed || o.preferences_changed
      then record a { worker = (w, notify_settings_changed e) }
      else a

  unfoldable pub on_settings : Answers → App → App
  unfolding apply_outcome update_tray update_tooltip_for_key_state
  on_settings n a =
      let after = record a {
        view = record a.view { hive = n.hive_after };
        has_stored_key = n.key_after;
      } in
      let asked = apply_outcome n.outcome after in
      let shown =
        if asked.has_window
        then record asked { view = on_settings_changed env asked.view }
        else asked in
      if n.outcome.key_changed then update_tooltip_for_key_state shown else update_tray shown

  unfoldable pub add_effect : Effect → App → App
  add_effect e a = record a { effects = a.effects ++ (e ∷ []) }

  unfoldable pub on_command : Answers → Command → App → App
  unfolding on_show_sales on_settings add_effect
  on_command n id a = elim id [
    | view_sales ↦ on_show_sales a
    | refresh_now ↦ record a { worker = (a.worker.0, request_manual_refresh a.worker.1) }
    | settings ↦ on_settings n a
    | open_financials ↦ add_effect opened_financials a
    | about ↦ add_effect shown_about a
    | exit ↦ add_effect destroyed_window a
    | _ ↦ a
  ]

  -- the menu shows the summary; a command of 0 is none
  unfoldable pub show_context_menu : Answers → App → App
  unfolding compute_summary on_command
  show_context_menu n a =
      let (totals, a1) = compute_summary a in
      on_command n n.chosen (record a1 { sys = set_focus shell a1.tray a1.sys })

  unfoldable pub on_tray_callback : Answers → TrayEvent → App → App
  unfolding on_show_sales show_context_menu
  on_tray_callback n selected a = on_show_sales a
  on_tray_callback n context_menu a = show_context_menu n a
  on_tray_callback n other_event a = a

  unfoldable pub on_worker_message : Message → App → App
  unfolding update_tray refresh_window maybe_show_notification
  on_worker_message m a =
      let shown = refresh_window (update_tray a) in
      elim m [ totals_changed ↦ maybe_show_notification shown | _ ↦ shown ]

  unfoldable pub recreate_icon : App → App
  recreate_icon a = let (t, s) = recreate shell a.tray a.sys in record a { tray = t; sys = s }

  unfoldable pub handle_message : Answers → AppMessage → App → App
  unfolding on_tray_callback recreate_icon on_command on_worker_message add_effect
  handle_message n (app_tray event) a = on_tray_callback n event a
  handle_message n taskbar_created a = recreate_icon a
  handle_message n show_sales_requested a = on_show_sales a
  handle_message n show_settings_requested a = on_command n settings a
  handle_message n refresh_requested a = on_command n refresh_now a
  handle_message n (from_worker m) a = on_worker_message m a
  handle_message n (command id) a = on_command n id a
  handle_message n destroyed a = add_effect posted_quit a
