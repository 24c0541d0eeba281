-- ===== src/Storage/Database.antt =====
-- storage/Database.cpp: the statements of each method, in their order, on a connection. A bound
-- parameter is an argument of the change that the statement makes.
pub mod Replace
pub mod Clear
pub mod Views
pub mod Mark
pub mod Sales
use steam_sales_tray.Shared.{
  ℕ, Bool, true, false, not, ◌&&◌, Option, none, some, List, [], ◌∷◌, ◌++◌, is_empty, select, ◌==◌,
  if◌then◌else◌,
}
use steam_sales_tray.Shared.Bytes.{Bytes, codes, bytes_eq}
use steam_sales_tray.Shared.Word.{Int64}
use steam_sales_tray.Shared.Decimal.{to_string_signed}
use steam_sales_tray.Storage.Models.{DailyProductRow}
use steam_sales_tray.Storage.Connection.{
  SyncState, Product, DailyProductSale, Tables, Connection, Op, Change, call, prepare, statement,
  ◌⊳◌, transaction, when_open,
}

-- `SetSyncStateColumn` runs one UPDATE of one column.
unfoldable pub set_sync_state_column : (SyncState → SyncState) → Op
set_sync_state_column update =
    prepare ⊳ statement (λ t. some (record t { sync_state = update t.sync_state }))

unfoldable pub set_changed_dates_highwatermark : Bytes → Op
set_changed_dates_highwatermark highwatermark =
    set_sync_state_column λ s. record s { changed_dates_highwatermark = highwatermark }

unfoldable pub set_last_successful_check_utc : Bytes → Op
set_last_successful_check_utc iso8601 =
    set_sync_state_column λ s. record s { last_successful_check_utc = some iso8601 }

unfoldable pub set_last_successful_sync_utc : Bytes → Op
set_last_successful_sync_utc iso8601 =
    set_sync_state_column λ s. record s { last_successful_sync_utc = some iso8601 }

unfoldable pub set_last_error : Bytes → Op
set_last_error message = set_sync_state_column λ s. record s { last_error = some message }

unfoldable pub clear_backfill_cursor : Change
clear_backfill_cursor t =
    some (record t { sync_state = record t.sync_state { backfill_cursor = none } })

unfoldable pub set_backfill_cursor : Bytes → Op
set_backfill_cursor date =
    if is_empty date
    then statement clear_backfill_cursor
    else set_sync_state_column (λ s. record s { backfill_cursor = some date })

-- `ColumnText`: NULL is read as the empty string.
unfoldable pub column_text : Option Bytes → Bytes
column_text none = []
column_text (some text) = text

-- A SELECT of one row: `fallback` where it cannot be prepared or stepped.
unfoldable pub read {ℓ} : {A : Type ℓ} → A → (Tables → A) → Connection → A × Connection
read fallback column c =
    let (ok, c') = (prepare ⊳ call (λ c. (true, c))) c in
    (if ok then column c'.tables else fallback, c')

abbrev pub zero_mark : Bytes
zero_mark = codes "0"

unfoldable pub or_zero_mark : Bytes → Bytes
or_zero_mark value = if is_empty value then zero_mark else value

unfoldable pub get_changed_dates_highwatermark : Connection → Bytes × Connection
unfolding or_zero_mark
get_changed_dates_highwatermark c =
    let (value, c') = read zero_mark (λ t. t.sync_state.changed_dates_highwatermark) c in
    (or_zero_mark value, c')

unfoldable pub get_last_successful_sync_utc : Connection → Bytes × Connection
get_last_successful_sync_utc = read [] λ t. column_text t.sync_state.last_successful_sync_utc

unfoldable pub get_last_error : Connection → Bytes × Connection
get_last_error = read [] λ t. column_text t.sync_state.last_error

unfoldable pub get_backfill_cursor : Connection → Bytes × Connection
get_backfill_cursor = read [] λ t. column_text t.sync_state.backfill_cursor

-- DELETE FROM daily_product_sales WHERE financial_date=?
unfoldable pub delete_date : Bytes → Change
delete_date date t = some (record t {
  daily_product_sales = select (λ s. not (bytes_eq s.financial_date date)) t.daily_product_sales;
})

unfoldable pub upsert : Product → List Product → List Product
upsert p [] = p ∷ []
upsert p (q ∷ products) = if q.app_id == p.app_id then p ∷ products else q ∷ upsert p products

-- INSERT INTO products ... ON CONFLICT(app_id) DO UPDATE
unfoldable pub upsert_product : Product → Change
upsert_product p t = some (record t { products = upsert p t.products })

unfoldable pub has_product : Int64 → List Product → Bool
has_product a [] = false
has_product a (p ∷ products) = if p.app_id == a then true else has_product a products

unfoldable pub has_sale : Bytes → Int64 → List DailyProductSale → Bool
has_sale date a [] = false
has_sale date a (s ∷ sales) =
    if bytes_eq s.financial_date date && s.app_id == a then true else has_sale date a sales

-- INSERT INTO daily_product_sales: refused by the foreign key or by the primary key
unfoldable pub insert_daily : DailyProductSale → Change
insert_daily s t =
    if has_product s.app_id t.products
    then if has_sale s.financial_date s.app_id t.daily_product_sales
      then none
      else some (record t { daily_product_sales = t.daily_product_sales ++ s ∷ [] })
    else none

unfoldable pub product_of : DailyProductRow → Bytes → Product
product_of row now_utc = record {
  app_id = row.app_id;
  display_name =
      if is_empty row.display_name
      then codes "App " ++ to_string_signed row.app_id
      else row.display_name;
  last_seen_utc = now_utc;
}

unfoldable pub sale_of : Bytes → DailyProductRow → DailyProductSale
sale_of date row = record {
  financial_date = date;
  app_id = row.app_id;
  gross_units_sold = row.gross_units_sold;
  gross_units_returned = row.gross_units_returned;
  net_units_sold = row.net_units_sold;
}

unfoldable pub store_row : Bytes → Bytes → DailyProductRow → Op
store_row date now_utc row =
    statement (upsert_product (product_of row now_utc))
    ⊳ statement (insert_daily (sale_of date row))

-- the loop over the rows, which stops at the first statement that fails
unfoldable pub store_rows : Bytes → Bytes → List DailyProductRow → Op
store_rows date now_utc [] = λ c. (true, c)
store_rows date now_utc (row ∷ rows) = store_row date now_utc row ⊳ store_rows date now_utc rows

-- one DELETE, then the two prepared statements, then the loop
unfoldable pub replace_body : Bytes → List DailyProductRow → Bytes → Op
replace_body date rows now_utc =
    prepare ⊳ statement (delete_date date) ⊳ prepare ⊳ prepare ⊳ store_rows date now_utc rows

unfoldable pub replace_date : Bytes → List DailyProductRow → Bytes → Op
replace_date date rows now_utc = when_open (transaction (replace_body date rows now_utc))

unfoldable pub delete_sales : Change
delete_sales t = some (record t { daily_product_sales = [] })

-- refused by the foreign key while a sale is left
unfoldable pub delete_products : Change
delete_products t =
    if is_empty t.daily_product_sales then some (record t { products = [] }) else none

unfoldable pub reset_sync_state : Change
reset_sync_state t = some (record t {
  sync_state = record t.sync_state {
    changed_dates_highwatermark = zero_mark;
    last_successful_sync_utc = none;
    backfill_cursor = none;
  };
})

unfoldable pub clear_body : Op
clear_body = statement delete_sales ⊳ statement delete_products ⊳ statement reset_sync_state

unfoldable pub clear_all_sales : Op
clear_all_sales = when_open (transaction clear_body)
