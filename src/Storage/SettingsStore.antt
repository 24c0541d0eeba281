-- ===== src/Storage/SettingsStore.antt =====
-- storage/SettingsStore.cpp: the preferences in the registry. A DWORD and an `int` are bit patterns
-- below 2 ^ 32, so the casts between them change nothing. The calls of the registry are a parameter.
pub mod RoundTrip
use steam_sales_tray.Shared.{
  ℕ, ◌≡◌, ◌≢◌, Bool, true, false, not, ◌&&◌, ◌||◌, Option, none, some, List, [], ◌∷◌, ◌++◌, ltb,
  ◌==◌, if◌then◌else◌,
}
use steam_sales_tray.Shared.Bytes.{Wide, codes}
use steam_sales_tray.Shared.Decimal.{to_string}

-- The key Software\Bezi\SteamSalesTray of the current user.
pub record Registry : Type 1 where
  pub Hive : Type 0
  -- RegOpenKeyExW succeeds
  pub opens : Hive → Bool
  -- RegQueryValueExW: the type and the value
  pub query : Wide → Hive → Option (ℕ × ℕ)
  -- RegCreateKeyExW
  pub create : Hive → Bool × Hive
  -- RegSetValueExW with REG_DWORD
  pub set : Wide → ℕ → Hive → Hive

abbrev pub reg_dword : ℕ
reg_dword = 4

pub data RefreshInterval : Type 0 where
  manual min15 min30 min60 hours2 hours6 : RefreshInterval

unfoldable pub minutes_of : RefreshInterval → ℕ
minutes_of RefreshInterval.manual = 0
minutes_of RefreshInterval.min15 = 15
minutes_of RefreshInterval.min30 = 30
minutes_of RefreshInterval.min60 = 60
minutes_of RefreshInterval.hours2 = 120
minutes_of RefreshInterval.hours6 = 360

abbrev pub default_refresh : ℕ
default_refresh = 30

abbrev pub unset_sentinel : ℕ
unset_sentinel = 2147483647

unfoldable pub is_valid_interval : ℕ → Bool
is_valid_interval m = m == 0 || m == 15 || m == 30 || m == 60 || m == 120 || m == 360

unfoldable pub clamp_interval : ℕ → ℕ
unfolding is_valid_interval
clamp_interval stored =
    let minutes = if is_valid_interval stored then stored else default_refresh in
    if not (minutes == 0) && ltb minutes 15 then 15 else minutes

pub record Rect : Type 0 where
  pub x : ℕ
  pub y : ℕ
  pub width : ℕ
  pub height : ℕ

-- whether the stored width and height are those of a rectangle
unfoldable pub is_stored_size : ℕ → ℕ → Bool
is_stored_size w h = not (w == unset_sentinel || h == unset_sentinel || w == 0 || h == 0)

module _ (reg : Registry) where
  unfoldable pub read_dword : Wide → ℕ → reg.Hive → ℕ
  read_dword name fallback hive =
      if reg.opens hive
      then elim (reg.query name hive) [
        | none ↦ fallback
        | some (kind, value) ↦ if kind == reg_dword then value else fallback
      ]
      else fallback

  unfoldable pub write_dword : Wide → ℕ → reg.Hive → reg.Hive
  write_dword name value hive =
      let (created, hive') = reg.create hive in if created then reg.set name value hive' else hive'

  unfoldable pub get_refresh_interval : reg.Hive → ℕ
  get_refresh_interval hive =
      clamp_interval (read_dword (codes "RefreshIntervalMinutes") default_refresh hive)

  unfoldable pub set_refresh_interval : RefreshInterval → reg.Hive → reg.Hive
  set_refresh_interval interval = write_dword (codes "RefreshIntervalMinutes") (minutes_of interval)

  abbrev bit : Bool → ℕ
  bit true = 1
  bit false = 0

  unfoldable pub get_notify_on_new_units : reg.Hive → Bool
  get_notify_on_new_units hive = not (read_dword (codes "NotifyOnNewUnits") 0 hive == 0)

  unfoldable pub set_notify_on_new_units : Bool → reg.Hive → reg.Hive
  set_notify_on_new_units enabled = write_dword (codes "NotifyOnNewUnits") (bit enabled)

  unfoldable pub get_hide_lifetime : reg.Hive → Bool
  get_hide_lifetime hive = not (read_dword (codes "HideLifetime") 0 hive == 0)

  unfoldable pub set_hide_lifetime : Bool → reg.Hive → reg.Hive
  set_hide_lifetime hidden = write_dword (codes "HideLifetime") (bit hidden)

  unfoldable pub get_sales_period_index : reg.Hive → ℕ
  get_sales_period_index = read_dword (codes "SalesPeriodIndex") 0

  unfoldable pub set_sales_period_index : ℕ → reg.Hive → reg.Hive
  set_sales_period_index index = write_dword (codes "SalesPeriodIndex") index

  unfoldable pub get_sales_window_rect : reg.Hive → Option Rect
  get_sales_window_rect hive =
      let w = read_dword (codes "SalesWindowW") unset_sentinel hive in
      let h = read_dword (codes "SalesWindowH") unset_sentinel hive in
      if is_stored_size w h
      then some (record {
        x = read_dword (codes "SalesWindowX") 0 hive;
        y = read_dword (codes "SalesWindowY") 0 hive;
        width = w;
        height = h;
      })
      else none

  unfoldable pub set_sales_window_rect : Rect → reg.Hive → reg.Hive
  set_sales_window_rect r hive =
      let with_x = write_dword (codes "SalesWindowX") r.x hive in
      let with_y = write_dword (codes "SalesWindowY") r.y with_x in
      let with_w = write_dword (codes "SalesWindowW") r.width with_y in
      write_dword (codes "SalesWindowH") r.height with_w

  -- of a column from 0 to 2
  unfoldable pub column_name : ℕ → Wide
  column_name column = codes "SalesColWidth" ++ to_string column

  unfoldable pub get_sales_column_width : ℕ → ℕ → reg.Hive → ℕ
  get_sales_column_width column fallback hive =
      let v = read_dword (column_name column) unset_sentinel hive in
      if v == unset_sentinel then fallback else v

  unfoldable pub set_sales_column_width : ℕ → ℕ → reg.Hive → reg.Hive
  set_sales_column_width column width = write_dword (column_name column) width
