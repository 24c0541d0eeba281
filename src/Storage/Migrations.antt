-- ===== src/Storage/Migrations.antt =====
-- storage/Migrations.cpp, and `Open` and `Close` of storage/Database.cpp. A script runs in one
-- sqlite3_exec: its CREATE TABLE or ALTER TABLE fails where the table or column is there already.
pub mod Versions
pub mod Sales
use steam_sales_tray.Shared.{
  ℕ, Bool, true, false, ◌&&◌, ◌||◌, not, Option, none, some, List, [], ◌∷◌, is_empty, ltb, leb,
  if◌then◌else◌,
}
use steam_sales_tray.Shared.Bytes.{Bytes, bytes_eq, bytes_leb}
use steam_sales_tray.Storage.Connection.{
  SyncState, DailyProductSale, Tables, Connection, Outcome, Op, Change, call, prepare, statement,
  restore, ◌⊳◌, transaction,
}
use steam_sales_tray.Storage.Database.{zero_mark}

abbrev pub target_schema_version : ℕ
target_schema_version = 2

abbrev pub empty_sync_state : SyncState
empty_sync_state = record {
  changed_dates_highwatermark = zero_mark;
  last_successful_check_utc = none;
  last_successful_sync_utc = none;
  last_error = none;
  backfill_cursor = none;
}

-- kSchemaV1
unfoldable pub schema_v1 : Change
schema_v1 t = elim t.schema_version [
  | some v ↦ none
  | none ↦ some (record {
    schema_version = some 1;
    has_cursor_column = false;
    sync_state = empty_sync_state;
    products = [];
    daily_product_sales = [];
  })
]

-- SELECT MAX(financial_date) FROM daily_product_sales
unfoldable pub max_date : List DailyProductSale → Option Bytes
max_date [] = none
max_date (s ∷ sales) = elim (max_date sales) [
  | none ↦ some s.financial_date
  | some d ↦ some (if bytes_leb s.financial_date d then d else s.financial_date)
]

-- the UPDATE that seeds the cursor of a database in the middle of its backfill
unfoldable pub seed_cursor : Tables → SyncState
seed_cursor t =
    if bytes_eq t.sync_state.changed_dates_highwatermark zero_mark
      && not (is_empty t.daily_product_sales)
    then record t.sync_state { backfill_cursor = max_date t.daily_product_sales }
    else t.sync_state

-- kSchemaV2
unfoldable pub schema_v2 : Change
schema_v2 t = elim t.schema_version [
  | none ↦ none
  | some v ↦
      if t.has_cursor_column
      then none
      else some (record t {
        schema_version = some 2;
        has_cursor_column = true;
        sync_state = seed_cursor t;
      })
]

-- the prepared SELECT fails where the table is absent
unfoldable pub prepare_version : Op
prepare_version = call λ c. elim c.tables.schema_version [ none ↦ (false, c) | some v ↦ (true, c) ]

unfoldable pub version_of : Option ℕ → ℕ
version_of none = 0
version_of (some v) = v

unfoldable pub get_schema_version : Connection → ℕ × Connection
unfolding version_of
get_schema_version c =
    let (ok, c') = (prepare_version ⊳ call (λ d. (true, d))) c in
    (if ok then version_of c'.tables.schema_version else 0, c')

-- `if (version < n) { if (!ApplyStep(...)) return false; }`
unfoldable pub apply_if : Bool → Change → Op
apply_if pending script c = if pending then transaction (statement script) c else (true, c)

-- The version is `n` after the two steps, unless it was greater already.
unfoldable pub apply_migrations : Op
apply_migrations c =
    let (version, c') = get_schema_version c in
    let (ok, c'') = (apply_if (ltb version 1) schema_v1 ⊳ apply_if (ltb version 2) schema_v2) c' in
    (if ok then leb target_schema_version (if ltb version 2 then 2 else version) else false, c'')

-- Closing a connection rolls its open transaction back.
unfoldable pub close : Connection → Connection
close c = record (restore c) { is_open = false }

-- sqlite3_open_v2 is the one call that needs no handle.
unfoldable pub connect : Op
connect c = call (λ d. (true, d)) (record c { is_open = true })

-- four PRAGMAs, whose results nobody reads
unfoldable pub set_pragmas : Connection → Connection
set_pragmas c =
    let pragma = λ (d : Connection). (call (λ e. (true, e)) d).1 in
    pragma (pragma (pragma (pragma c)))

unfoldable pub or_close : Op → Op
or_close m c = let (ok, c') = m c in if ok then (true, c') else (false, close c')

unfoldable pub open_database : Op
open_database c = or_close (connect ⊳ (λ d. apply_migrations (set_pragmas d))) (close c)
