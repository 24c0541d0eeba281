-- ===== src/Storage/SettingsStore/RoundTrip.antt =====
-- What a preference reads as, whatever the registry holds, and after it was set.
use steam_sales_tray.Shared.{ℕ, ◌≡◌, refl, ap, ◌∙◌, true, false, some, ◌==◌, arith, if◌then◌else◌}
use steam_sales_tray.Shared.Bytes.{Wide, codes, bytes_eq}
use steam_sales_tray.Storage.SettingsStore.{
  Registry, reg_dword, RefreshInterval, manual, min15, min30, min60, hours2, hours6, minutes_of,
  clamp_interval, Rect, is_stored_size, read_dword, write_dword, get_refresh_interval,
  set_refresh_interval, get_sales_window_rect, set_sales_window_rect, unset_sentinel,
}

-- A registry that the program may read and write, where every call works. The code ignores a call
-- that fails, so what is read back after a writing rests on this, and each theorem with it says so.
pub record RegistryLaws (reg : Registry) : Type 0 where
  pub can_open : (hive : reg.Hive) → reg.opens hive ≡ true
  pub can_create : (hive : reg.Hive) → (reg.create hive).0 ≡ true
  pub query_set :
      (name : Wide) (value : ℕ) (hive : reg.Hive)
      → reg.query name (reg.set name value hive) ≡ some (reg_dword, value)
  pub query_set_other :
      (name other : Wide) (value : ℕ) (hive : reg.Hive)
      → bytes_eq name other ≡ false
      → reg.query other (reg.set name value hive) ≡ reg.query other hive
  pub query_create :
      (name : Wide) (hive : reg.Hive) → reg.query name (reg.create hive).1 ≡ reg.query name hive

interval_of : ℕ → RefreshInterval
interval_of m =
    if m == 0
    then manual
    else if m == 15
    then min15
    else if m == 60
    then min60
    else if m == 120
    then hours2
    else if m == 360
    then hours6
    else min30

clamp_interval-interval_of : (m : ℕ) → clamp_interval m ≡ minutes_of (interval_of m)
unfolding clamp_interval interval_of minutes_of
clamp_interval-interval_of m = ground arith

-- Whatever the registry holds, the refresh interval that is read is one of the six of the program.
pub get_refresh_interval-valid :
    (reg : Registry) (hive : reg.Hive)
    → (i : RefreshInterval) × (get_refresh_interval reg hive ≡ minutes_of i)
unfolding get_refresh_interval
get_refresh_interval-valid reg hive = (interval_of _, clamp_interval-interval_of _)

module _ (reg : Registry) (laws : RegistryLaws reg) where
  pub read_dword-write_dword :
      (name : Wide) (value fallback : ℕ) (hive : reg.Hive)
      → read_dword reg name fallback (write_dword reg name value hive) ≡ value
  unfolding read_dword write_dword
  read_dword-write_dword name value fallback hive = ground (
    arith,
    laws.can_create hive,
    laws.can_open (reg.set name value (reg.create hive).1),
    laws.query_set name value (reg.create hive).1,
  )

  pub read_dword-write_dword_other :
      (name other : Wide) (value fallback : ℕ) (hive : reg.Hive)
      → bytes_eq name other ≡ false
      → read_dword reg other fallback (write_dword reg name value hive)
        ≡ read_dword reg other fallback hive
  unfolding read_dword write_dword
  read_dword-write_dword_other name other value fallback hive apart = ground (
    arith,
    laws.can_create hive,
    laws.can_open (reg.set name value (reg.create hive).1),
    laws.can_open hive,
    laws.query_create other hive,
    laws.query_set_other name other value (reg.create hive).1 apart,
  )

  clamp_interval-minutes_of : (i : RefreshInterval) → clamp_interval (minutes_of i) ≡ minutes_of i
  unfolding clamp_interval minutes_of
  clamp_interval-minutes_of manual = refl
  clamp_interval-minutes_of min15 = refl
  clamp_interval-minutes_of min30 = refl
  clamp_interval-minutes_of min60 = refl
  clamp_interval-minutes_of hours2 = refl
  clamp_interval-minutes_of hours6 = refl

  -- In a registry that can be read and written, an interval that was set is the one that is read.
  pub get_refresh_interval-set_refresh_interval :
      (i : RefreshInterval) (hive : reg.Hive)
      → get_refresh_interval reg (set_refresh_interval reg i hive) ≡ minutes_of i
  unfolding get_refresh_interval set_refresh_interval
  get_refresh_interval-set_refresh_interval i hive =
      ap clamp_interval (read_dword-write_dword _ (minutes_of i) _ hive)
      ∙ clamp_interval-minutes_of i

  get_sales_window_rect-some :
      (r : Rect) (hive : reg.Hive)
      → read_dword reg (codes "SalesWindowX") 0 hive ≡ r.x
      → read_dword reg (codes "SalesWindowY") 0 hive ≡ r.y
      → read_dword reg (codes "SalesWindowW") unset_sentinel hive ≡ r.width
      → read_dword reg (codes "SalesWindowH") unset_sentinel hive ≡ r.height
      → is_stored_size r.width r.height ≡ true
      → get_sales_window_rect reg hive ≡ some r
  unfolding get_sales_window_rect
  get_sales_window_rect-some r hive x y w h stored = ground arith

  -- In such a registry, a rectangle with a width and a height that are neither 0 nor the sentinel
  -- is read back as it was saved.
  pub get_sales_window_rect-set_sales_window_rect :
      (r : Rect) (hive : reg.Hive)
      → is_stored_size r.width r.height ≡ true
      → get_sales_window_rect reg (set_sales_window_rect reg r hive) ≡ some r
  unfolding set_sales_window_rect codes bytes_eq
  get_sales_window_rect-set_sales_window_rect r hive h =
      let with_x = write_dword reg (codes "SalesWindowX") r.x hive in
      let with_y = write_dword reg (codes "SalesWindowY") r.y with_x in
      let with_w = write_dword reg (codes "SalesWindowW") r.width with_y in
      get_sales_window_rect-some r _
        (read_dword-write_dword_other _ _ r.height 0 with_w refl
          ∙ read_dword-write_dword_other _ _ r.width 0 with_y refl
          ∙ read_dword-write_dword_other _ _ r.y 0 with_x refl
          ∙ read_dword-write_dword _ r.x 0 hive)
        (read_dword-write_dword_other _ _ r.height 0 with_w refl
          ∙ read_dword-write_dword_other _ _ r.width 0 with_y refl
          ∙ read_dword-write_dword _ r.y 0 with_x)
        (read_dword-write_dword_other _ _ r.height unset_sentinel with_w refl
          ∙ read_dword-write_dword _ r.width unset_sentinel with_y)
        (read_dword-write_dword _ r.height unset_sentinel with_w) h
