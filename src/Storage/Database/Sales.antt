-- ===== src/Storage/Database/Sales.antt =====
-- Which calls of the database leave the sales that are committed as they are.
use steam_sales_tray.Shared.{refl, []}
use steam_sales_tray.Shared.Bytes.{Bytes, Wide}
use steam_sales_tray.Storage.Connection.{Connection}
use steam_sales_tray.Storage.Database.{
  set_changed_dates_highwatermark, set_last_successful_check_utc, set_last_successful_sync_utc,
  set_last_error, set_backfill_cursor, zero_mark, column_text, get_changed_dates_highwatermark,
  get_backfill_cursor, get_last_successful_sync_utc,
}
use steam_sales_tray.Storage.Database.Views.{
  KeepsView, set_sync_state_column-KeepsView, set_last_error-KeepsView,
  set_backfill_cursor-KeepsView, read-KeepsView, step_row-KeepsView, select_rows-KeepsView,
}
use steam_sales_tray.Storage.Migrations.Sales.{sales_view}
use steam_sales_tray.Storage.Queries.{
  query_lifetime, run_product_query, sum_for_date, run_scalar_sum,
}

abbrev pub KeepsSales : {A : Type 0} → (Connection → A × Connection) → Type 0
KeepsSales f = KeepsView sales_view f

pub set_changed_dates_highwatermark-KeepsSales :
    (mark : Bytes) → KeepsSales (set_changed_dates_highwatermark mark)
unfolding set_changed_dates_highwatermark
set_changed_dates_highwatermark-KeepsSales mark =
    set_sync_state_column-KeepsView sales_view _ (λ t. refl)

pub set_last_successful_check_utc-KeepsSales :
    (now : Bytes) → KeepsSales (set_last_successful_check_utc now)
unfolding set_last_successful_check_utc
set_last_successful_check_utc-KeepsSales now =
    set_sync_state_column-KeepsView sales_view _ (λ t. refl)

pub set_last_successful_sync_utc-KeepsSales :
    (now : Bytes) → KeepsSales (set_last_successful_sync_utc now)
unfolding set_last_successful_sync_utc
set_last_successful_sync_utc-KeepsSales now =
    set_sync_state_column-KeepsView sales_view _ (λ t. refl)

pub set_last_error-KeepsSales : (message : Bytes) → KeepsSales (set_last_error message)
set_last_error-KeepsSales message = set_last_error-KeepsView sales_view message (λ t s. refl)

pub set_backfill_cursor-KeepsSales : (date : Bytes) → KeepsSales (set_backfill_cursor date)
set_backfill_cursor-KeepsSales date = set_backfill_cursor-KeepsView sales_view date (λ t s. refl)

pub get_changed_dates_highwatermark-KeepsSales : KeepsSales get_changed_dates_highwatermark
unfolding get_changed_dates_highwatermark
get_changed_dates_highwatermark-KeepsSales = record {
  at = (read-KeepsView sales_view zero_mark (λ t. t.sync_state.changed_dates_highwatermark)).at;
}

pub get_backfill_cursor-KeepsSales : KeepsSales get_backfill_cursor
unfolding get_backfill_cursor
get_backfill_cursor-KeepsSales =
    read-KeepsView sales_view [] (λ t. column_text t.sync_state.backfill_cursor)

pub get_last_successful_sync_utc-KeepsSales : KeepsSales get_last_successful_sync_utc
unfolding get_last_successful_sync_utc
get_last_successful_sync_utc-KeepsSales =
    read-KeepsView sales_view [] (λ t. column_text t.sync_state.last_successful_sync_utc)

pub query_lifetime-KeepsSales :
    (utf8_to_wide : Bytes → Wide) → KeepsSales (query_lifetime utf8_to_wide)
unfolding query_lifetime run_product_query
query_lifetime-KeepsSales utf8_to_wide = record {
  at = λ c. (select_rows-KeepsView sales_view _).at c;
}

pub sum_for_date-KeepsSales : (date : Bytes) → KeepsSales (sum_for_date date)
unfolding sum_for_date run_scalar_sum
sum_for_date-KeepsSales date = record { at = λ c. (step_row-KeepsView sales_view _).at c }

pub ruleset sales_kept = (
  set_changed_dates_highwatermark-KeepsSales, set_last_successful_check_utc-KeepsSales,
  set_last_successful_sync_utc-KeepsSales, set_last_error-KeepsSales,
  set_backfill_cursor-KeepsSales, get_changed_dates_highwatermark-KeepsSales,
  get_backfill_cursor-KeepsSales, get_last_successful_sync_utc-KeepsSales,
  query_lifetime-KeepsSales, sum_for_date-KeepsSales,
)
