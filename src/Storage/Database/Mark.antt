-- ===== src/Storage/Database/Mark.antt =====
-- Which calls of the database leave the high-water mark that is committed as it is.
use steam_sales_tray.Shared.{refl, ap, inl, inr, Option, List}
use steam_sales_tray.Shared.Bytes.{Bytes, Wide}
use steam_sales_tray.Storage.Models.{DailyProductRow}
use steam_sales_tray.Storage.Connection.{SyncState, Tables, Connection, committed}
use steam_sales_tray.Storage.Database.{
  set_last_successful_check_utc, set_last_error, set_backfill_cursor, read, replace_date, zero_mark,
  get_changed_dates_highwatermark,
}
use steam_sales_tray.Storage.Database.Views.{
  KeepsView, set_sync_state_column-KeepsView, set_last_error-KeepsView,
  set_backfill_cursor-KeepsView, read-KeepsView, step_row-KeepsView, select_rows-KeepsView,
}
use steam_sales_tray.Storage.Database.Replace.{replace_date-atomic}
use steam_sales_tray.Storage.Queries.{step_row, query_lifetime, run_product_query}

abbrev pub mark_view : Tables → Bytes
mark_view t = t.sync_state.changed_dates_highwatermark

abbrev pub mark_of : Connection → Bytes
mark_of c = mark_view (committed c)

-- Whatever the engine answers, the mark is as before.
abbrev pub KeepsMark : {A : Type 0} → (Connection → A × Connection) → Type 0
KeepsMark f = KeepsView mark_view f

pub set_last_successful_check_utc-KeepsMark :
    (now : Bytes) → KeepsMark (set_last_successful_check_utc now)
unfolding set_last_successful_check_utc
set_last_successful_check_utc-KeepsMark now =
    set_sync_state_column-KeepsView mark_view _ (λ t. refl)

pub set_last_error-KeepsMark : (message : Bytes) → KeepsMark (set_last_error message)
set_last_error-KeepsMark message = set_last_error-KeepsView mark_view message (λ t s. refl)

pub set_backfill_cursor-KeepsMark : (date : Bytes) → KeepsMark (set_backfill_cursor date)
set_backfill_cursor-KeepsMark date = set_backfill_cursor-KeepsView mark_view date (λ t s. refl)

pub read-KeepsMark :
    {A : Type 0} (fallback : A) (column : Tables → A) → KeepsMark (read fallback column)
read-KeepsMark = read-KeepsView mark_view

pub step_row-KeepsMark : {A : Type 0} (column : Tables → Option A) → KeepsMark (step_row column)
step_row-KeepsMark = step_row-KeepsView mark_view

pub replace_date-KeepsMark :
    (date : Bytes) (rows : List DailyProductRow) (now : Bytes)
    → KeepsMark (replace_date date rows now)
replace_date-KeepsMark date rows now = record {
  at = λ c. elim (replace_date-atomic date rows now c) [
    | inl (worked, before, after, replaced) ↦
        ap (λ (s : SyncState). s.changed_dates_highwatermark) replaced.state
    | inr (failed, same) ↦ ap (λ (t : Tables). t.sync_state.changed_dates_highwatermark) same
  ];
}

pub get_changed_dates_highwatermark-KeepsMark : KeepsMark get_changed_dates_highwatermark
unfolding get_changed_dates_highwatermark
get_changed_dates_highwatermark-KeepsMark = record {
  at = (read-KeepsMark zero_mark (λ t. t.sync_state.changed_dates_highwatermark)).at;
}

pub query_lifetime-KeepsMark :
    (utf8_to_wide : Bytes → Wide) → KeepsMark (query_lifetime utf8_to_wide)
unfolding query_lifetime run_product_query
query_lifetime-KeepsMark utf8_to_wide = record {
  at = λ c. (select_rows-KeepsView mark_view _).at c;
}
