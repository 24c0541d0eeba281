-- ===== src/Tests/Showing.antt =====
-- Tests of tray/, ui/SalesWindow.cpp and app/App.cpp.
use mathlib.Core.Option
use steam_sales_tray.Shared.{
  ℕ, ◌≡◌, ◌≢◌, ◌∙◌, ap, refl, Bool, true, false, Option, none, some, List, [], ◌∷◌, length, ◌<◌,
  arith,
}
use steam_sales_tray.Shared.Bytes.{Wide, codes}
use steam_sales_tray.Platform.TimeUtil.{Clock}
use steam_sales_tray.Storage.SettingsStore.{get_hide_lifetime}
use steam_sales_tray.Tray.TrayIcon.{
  Nim, nim_add, nim_modify, nim_delete, nim_set_focus, nim_set_version, Identity, by_guid, by_uid,
  NotifyIconData, Shell, TrayIcon, identity_of, tip_of, add, recreate, set_tooltip, try_add,
  clear_stale, or_by_uid, set_added, build_data,
}
use steam_sales_tray.Tray.TrayIcon.Shown.{
  ShownIcon, ShellLaws, watched, Operation, op_add, op_set_tooltip, taskbar_created, perform,
  perform_all, icon_of, perform_all-shows,
}
use steam_sales_tray.Ui.SalesWindow.{
  SalesPeriod, Surroundings, View, SalesWindow, all_periods, period_at, current_period,
  populate_period_combo, handle_window_message, period_selected,
}
use steam_sales_tray.Storage.Queries.{Group}
use steam_sales_tray.Ui.SalesWindow.Periods.{populate_period_combo-period_selected}
use steam_sales_tray.Sync.Worker.{Round, timed_out, run}
use steam_sales_tray.Sync.Service.Monad.{sync_completed}
use steam_sales_tray.App.App.{App, on_worker_message}
use steam_sales_tray.App.App.Tooltip.{on_worker_message-at_rest}
use steam_sales_tray.Tests.Data.{connected, client, surroundings, at_start}
use steam_sales_tray.Tests.Storing.{registry, registry-laws}

-- A shell that shows at most one icon under each identity.
pub record Icons : Type 0 where
  guid : Option ShownIcon
  uid : Option ShownIcon

abbrev get_icon : Identity → Icons → Option ShownIcon
get_icon by_guid s = s.guid
get_icon by_uid s = s.uid

abbrev put_icon : Identity → Option ShownIcon → Icons → Icons
put_icon by_guid x s = record s { guid = x }
put_icon by_uid x s = record s { uid = x }

get_icon-put_icon :
    (i : Identity) (x : Option ShownIcon) (s : Icons) → get_icon i (put_icon i x s) ≡ x
get_icon-put_icon by_guid x s = refl
get_icon-put_icon by_uid x s = refl

abbrev with_tip : Option Wide → ShownIcon → ShownIcon
with_tip none x = x
with_tip (some t) x = record x { tip = some t }

abbrev with_version : ℕ → ShownIcon → ShownIcon
with_version v x = record x { version = v }

abbrev notify_icons : Nim → NotifyIconData → Icons → Bool × Icons
notify_icons nim_add d s = (
  true,
  put_icon d.identity (some (record { callback = d.callback; tip = d.tip; version = 0 })) s,
)
notify_icons nim_modify d s =
    (true, put_icon d.identity (Option.map (with_tip d.tip) (get_icon d.identity s)) s)
notify_icons nim_delete d s = (true, put_icon d.identity none s)
notify_icons nim_set_focus d s = (true, s)
notify_icons nim_set_version d s =
    (true, put_icon d.identity (Option.map (with_version d.version) (get_icon d.identity s)) s)

abbrev pub icons : Shell
icons = record { Sys = Icons; notify = notify_icons }

no_tip_keeps : (x : Option ShownIcon) → Option.map (with_tip none) x ≡ x
no_tip_keeps none = refl
no_tip_keeps (some x) = refl

abbrev icon_laws : ShellLaws icons
icon_laws = record {
  shown = get_icon;
  adds = λ d s e. get_icon-put_icon d.identity _ s;
  sets_version = λ d s x worked shown.
      get_icon-put_icon d.identity _ s ∙ ap (Option.map (with_version d.version)) shown;
  modifies_tip = λ d s x t worked shown tip.
      get_icon-put_icon d.identity _ s
      ∙ ap (Option.map (with_tip d.tip)) shown
      ∙ ap (λ o. some (with_tip o x)) tip;
  keeps_tip = λ d s tip.
      get_icon-put_icon d.identity _ s
      ∙ ap (λ o. Option.map (with_tip o) (get_icon d.identity s)) tip
      ∙ no_tip_keeps _;
  focus_keeps = λ d s. refl;
}

abbrev no_icon : TrayIcon
no_icon = record {
  owner = 0;
  callback_message = 0;
  icon = 0;
  tooltip = [];
  use_guid = true;
  added = false;
}

abbrev no_icons : Icons
no_icons = record { guid = none; uid = none }

-- An icon is added, Explorer starts again, and the tooltip changes.
abbrev operations : List (Operation (watched icons))
operations =
    op_add 1 2 3 (codes "Ready")
    ∷ taskbar_created (no_icons, true)
    ∷ op_set_tooltip (codes "Updating")
    ∷ []

is_added : (perform_all (watched icons) operations (no_icon, (no_icons, true))).0.added ≡ true
unfolding perform_all perform add recreate set_tooltip try_add clear_stale or_by_uid set_added
    build_data identity_of
is_added = refl

all_worked : (perform_all (watched icons) operations (no_icon, (no_icons, true))).1.1 ≡ true
unfolding perform_all perform add recreate set_tooltip try_add clear_stale or_by_uid set_added
    build_data identity_of
all_worked = refl

perform_all-shows_example :
    let (t, (s, worked)) = perform_all (watched icons) operations (no_icon, (no_icons, true)) in
    get_icon (identity_of t) s ≡ some (icon_of t)
perform_all-shows_example =
    perform_all-shows icons icon_laws operations (no_icon, (no_icons, true)) refl is_added
      all_worked

abbrev clock : Clock
clock = record {
  utc = record {
    year = 2024;
    month = 5;
    day = 6;
    hour = 7;
    minute = 8;
    second = 9;
    milliseconds = 0;
  };
  local = record {
    year = 2024;
    month = 5;
    day = 6;
    hour = 7;
    minute = 8;
    second = 9;
    milliseconds = 0;
  };
  has_pacific_zone = false;
  to_pacific = λ t. none;
  to_file_time = λ t. none;
  to_system_time = λ n. none;
  scan = λ s. none;
}

abbrev pub desk : Surroundings
desk = record { clock = clock; utf8_to_wide = λ s. s; reg = registry }

abbrev new_window : SalesWindow
new_window = record {
  periods = all_periods (get_hide_lifetime registry (λ name. none));
  selection = some 0;
  items = [];
  total = [];
  status = [];
  column_widths = (0, 0, 0);
  rect = record { x = 0; y = 0; width = 480; height = 380 };
  is_iconic = false;
  is_visible = true;
  sent = [];
}

abbrev view : View desk
view = record { window = new_window; conn = connected []; hive = λ name. none }

four_periods : 3 < length new_window.periods
unfolding all_periods
four_periods = omega arith

populate_period_combo-period_selected_example :
    current_period (
      populate_period_combo desk
        (handle_window_message desk (period_selected (some 3)) view).hive
        new_window)
    ≡ period_at 3 new_window.periods
populate_period_combo-period_selected_example =
    populate_period_combo-period_selected desk registry-laws 3 view new_window refl four_periods

abbrev one_round : Round
one_round = record { wake = timed_out; env = surroundings; interval = 30; tick = 1000 }

abbrev shown_tray : TrayIcon
shown_tray = record no_icon { added = true }

abbrev shown_icon : ShownIcon
shown_icon = record { callback = some 0; tip = some []; version = 4 }

abbrev pub app : App desk icons client
app = record {
  view = view;
  has_window = true;
  tray = shown_tray;
  sys = record no_icons { guid = some shown_icon };
  db_open = true;
  worker = (
    (run client (λ last. 400) one_round [] (at_start [])).state,
    record { stop = some false; manual = some false; settings = some false; joinable = true },
  );
  has_stored_key = true;
  effects = [];
}

is_shown : get_icon (identity_of shown_tray) app.sys ≡ some shown_icon
unfolding identity_of
is_shown = refl

on_worker_message-at_rest_example :
    let after = on_worker_message desk icons client sync_completed app in
    (tip : Wide) × (get_icon (identity_of after.tray) after.sys
      ≡ some (record shown_icon { tip = some tip }))
    × (tip ≢ tip_of (codes "Steam Sales - Updating…"))
on_worker_message-at_rest_example =
    on_worker_message-at_rest desk icons client icon_laws (λ last. 400) one_round [] (at_start [])
      sync_completed app shown_icon refl (λ d. refl) refl is_shown

abbrev lifetime_window : SalesWindow
lifetime_window = record new_window { periods = SalesPeriod.lifetime ∷ []; selection = some 0 }

-- the one product of the two dates, with both of its sales
abbrev both_sales : Group
both_sales = record { app_id = 7; name = codes "Game"; units = 3 }
