-- ===== src/Ui/SalesWindow.antt =====
-- ui/SalesWindow.cpp: the window with the units of each product. Its state is what the controls hold;
-- it reads the database and the preferences, and its messages to the main window are recorded. The
-- creation of the controls and their font is left out but for what they hold at first.
pub mod Periods
pub mod Layout
pub mod Totals
use steam_sales_tray.Shared.{
  ℕ, zero, suc, ◌+◌, ◌-◌, ◌*◌, ◌/◌, ◌%◌, ◌^◌, Bool, true, false, not, ◌&&◌, ◌||◌, Option, none,
  some, List, [], ◌∷◌, ◌++◌, length, map, is_empty, ltb, leb, ◌==◌, if◌then◌else◌,
}
use steam_sales_tray.Shared.Bytes.{Bytes, Wide, codes}
use steam_sales_tray.Shared.Word.{Int64, add64}
use steam_sales_tray.Shared.Decimal.{to_string, to_string_signed}
use steam_sales_tray.Platform.StringUtil.{format_thousands}
use steam_sales_tray.Platform.TimeUtil.{Clock, seconds_since_utc, steam_today, steam_date_days_ago}
use steam_sales_tray.Storage.Models.{ProductUnits}
use steam_sales_tray.Storage.Connection.{Connection}
use steam_sales_tray.Storage.Database.{get_last_error, get_last_successful_sync_utc}
use steam_sales_tray.Storage.Queries.{query_date, query_range, query_lifetime}
use steam_sales_tray.Storage.SettingsStore.{
  Registry, Rect, get_hide_lifetime, get_sales_period_index, set_sales_period_index,
  set_sales_window_rect, get_sales_window_rect, set_sales_column_width, get_sales_column_width,
}

pub data SalesPeriod : Type 0 where
  today yesterday last_7_days last_30_days lifetime : SalesPeriod

-- the value of the enum
unfoldable pub index_of : SalesPeriod → ℕ
index_of SalesPeriod.today = 0
index_of SalesPeriod.yesterday = 1
index_of SalesPeriod.last_7_days = 2
index_of SalesPeriod.last_30_days = 3
index_of SalesPeriod.lifetime = 4

unfoldable pub updated_text : ℕ → Wide
updated_text secs =
    if ltb secs 90
    then codes "Updated just now"
    else if ltb secs 3600
    then codes "Updated " ++ (to_string (secs / 60) ++ codes " min ago")
    else if ltb secs 86400
    then codes "Updated " ++ (to_string (secs / 3600) ++ codes "h ago")
    else codes "Updated " ++ (to_string (secs / 86400) ++ codes "d ago")

unfoldable pub relative_updated : Clock → Bytes → Wide
unfolding updated_text
relative_updated clock last_sync_utc =
    if is_empty last_sync_utc
    then codes "Not yet synced"
    else updated_text (seconds_since_utc clock last_sync_utc)

-- One row of the list: the product, its app ID and its units.
pub record Item : Type 0 where
  pub product : Wide
  pub app_id : Wide
  pub units : Wide

-- What PostMessage and SendMessage tell the main window.
pub data Sent : Type 0 where
  sent_refresh_now sent_settings : Sent

-- A window that exists. The selection is CB_GETCURSEL, `none` for CB_ERR; the rectangle is that of
-- GetWindowRect.
pub record SalesWindow : Type 0 where
  pub periods : List SalesPeriod
  pub selection : Option ℕ
  pub items : List Item
  pub total : Wide
  pub status : Wide
  pub column_widths : ℕ × ℕ × ℕ
  pub rect : Rect
  pub is_iconic : Bool
  pub is_visible : Bool
  pub sent : List Sent

unfoldable pub all_periods : Bool → List SalesPeriod
all_periods hide_lifetime =
    SalesPeriod.today
    ∷ SalesPeriod.yesterday
    ∷ SalesPeriod.last_7_days
    ∷ SalesPeriod.last_30_days
    ∷ (if hide_lifetime then [] else SalesPeriod.lifetime ∷ [])

-- the first period with a value, at its position
unfoldable pub find_period : ℕ → ℕ → List SalesPeriod → Option ℕ
unfolding index_of
find_period saved i [] = none
find_period saved i (p ∷ ps) =
    let later = find_period saved (i + 1) ps in if index_of p == saved then some i else later

unfoldable pub or_first : Option ℕ → ℕ
or_first none = 0
or_first (some i) = i

-- the period at a position, Today where there is none
unfoldable pub period_at : ℕ → List SalesPeriod → SalesPeriod
period_at n [] = SalesPeriod.today
period_at zero (p ∷ ps) = p
period_at (suc n) (p ∷ ps) = period_at n ps

unfoldable pub current_period : SalesWindow → SalesPeriod
unfolding period_at
current_period w = elim w.selection [ none ↦ SalesPeriod.today | some i ↦ period_at i w.periods ]

unfoldable pub item_of : ProductUnits → Item
item_of row = record {
  product = row.display_name;
  app_id = to_string_signed row.app_id;
  units = format_thousands row.units;
}

-- `total` of ReloadList, which wraps
unfoldable pub total_units : Int64 → List ProductUnits → Int64
total_units total [] = total
total_units total (row ∷ rows) = total_units (add64 total row.units) rows

-- What the window reads: the clock, the conversion of strings and the registry.
pub record Surroundings : Type 1 where
  pub clock : Clock
  pub utf8_to_wide : Bytes → Wide
  pub reg : Registry

module _ (env : Surroundings) where
  open env use {clock, utf8_to_wide, reg}

  unfoldable pub populate_period_combo : reg.Hive → SalesWindow → SalesWindow
  unfolding all_periods find_period or_first
  populate_period_combo hive w =
      let periods = all_periods (get_hide_lifetime reg hive) in
      let saved = get_sales_period_index reg hive in
      record w { periods = periods; selection = some (or_first (find_period saved 0 periods)) }

  unfoldable pub query_period : SalesPeriod → Connection → List ProductUnits × Connection
  query_period SalesPeriod.today = query_date utf8_to_wide (steam_today clock)
  query_period SalesPeriod.yesterday = query_date utf8_to_wide (steam_date_days_ago clock 1)
  query_period SalesPeriod.last_7_days =
      query_range utf8_to_wide (steam_date_days_ago clock 6) (steam_today clock)
  query_period SalesPeriod.last_30_days =
      query_range utf8_to_wide (steam_date_days_ago clock 29) (steam_today clock)
  query_period SalesPeriod.lifetime = query_lifetime utf8_to_wide

  unfoldable pub update_status_line : SalesWindow × Connection → SalesWindow × Connection
  unfolding relative_updated
  update_status_line (w, c) =
      let (last_error, c1) = get_last_error c in
      let (last_sync, c2) = get_last_successful_sync_utc c1 in
      if is_empty last_error
      then (record w { status = relative_updated clock last_sync }, c2)
      else (record w { status = codes "⚠ " ++ utf8_to_wide last_error }, c1)

  unfoldable pub reload_list : SalesWindow × Connection → SalesWindow × Connection
  unfolding query_period item_of total_units current_period update_status_line
  reload_list (w, c) =
      let (rows, c') = query_period (current_period w) c in
      update_status_line (
        record w {
          items = map item_of rows;
          total = codes "Total: " ++ format_thousands (total_units 0 rows);
        },
        c',
      )

  unfoldable pub save_geometry : SalesWindow → reg.Hive → reg.Hive
  save_geometry w hive = if w.is_iconic then hive else set_sales_window_rect reg w.rect hive

  unfoldable pub save_column_widths : SalesWindow → reg.Hive → reg.Hive
  save_column_widths w hive =
      let (first, second, third) = w.column_widths in
      set_sales_column_width reg 2 third
        (set_sales_column_width reg 1 second (set_sales_column_width reg 0 first hive))

  -- The window, the connection and the preferences.
  pub record View : Type 0 where
    pub window : SalesWindow
    pub conn : Connection
    pub hive : reg.Hive

  unfoldable pub reload : View → View
  unfolding reload_list
  reload v = let (w, c) = reload_list (v.window, v.conn) in record v { window = w; conn = c }

  unfoldable pub save_both : View → View
  unfolding save_geometry save_column_widths
  save_both v = record v { hive = save_column_widths v.window (save_geometry v.window v.hive) }

  -- the position that EnsureCreated opens the window at, `none` for CW_USEDEFAULT, and its size
  unfoldable pub created_rect : reg.Hive → Option (ℕ × ℕ) × ℕ × ℕ
  created_rect hive = elim (get_sales_window_rect reg hive) [
    | none ↦ (none, 480, 380)
    | some r ↦ (some (r.x, r.y), r.width, r.height)
  ]

  -- the columns with their default widths, and the periods
  unfoldable pub create_children : View → View
  unfolding populate_period_combo
  create_children v =
      let w = populate_period_combo v.hive v.window in
      record v {
        window = record w {
          total = codes "Total: 0";
          column_widths = (
            get_sales_column_width reg 0 230 v.hive,
            get_sales_column_width reg 1 90 v.hive,
            get_sales_column_width reg 2 90 v.hive,
          );
        };
      }

  -- the messages that HandleMessage answers by changing this state; a combo box changes its selection
  -- before CBN_SELCHANGE
  pub data WindowMessage : Type 0 where
    period_selected : Option ℕ → WindowMessage
    refresh_clicked settings_clicked close_clicked destroyed : WindowMessage

  unfoldable pub handle_window_message : WindowMessage → View → View
  unfolding reload save_both index_of
  handle_window_message (period_selected selection) v =
      let w = record v.window { selection = selection } in
      reload (record v {
        window = w;
        hive = set_sales_period_index reg (index_of (current_period w)) v.hive;
      })
  handle_window_message refresh_clicked v =
      reload
        (record v { window = record v.window { sent = v.window.sent ++ (sent_refresh_now ∷ []) } })
  handle_window_message settings_clicked v = record v {
    window = record v.window { sent = v.window.sent ++ (sent_settings ∷ []) };
  }
  handle_window_message close_clicked v =
      let saved = save_both v in
      record saved { window = record saved.window { is_visible = false } }
  handle_window_message destroyed v = save_both v

  unfoldable pub show_and_focus : View → View
  unfolding reload
  show_and_focus v =
      let shown = reload v in record shown { window = record shown.window { is_visible = true } }

  unfoldable pub refresh : View → View
  unfolding reload
  refresh v = if v.window.is_visible then reload v else v

  unfoldable pub on_settings_changed : View → View
  unfolding populate_period_combo reload
  on_settings_changed v = reload (record v { window = populate_period_combo v.hive v.window })
