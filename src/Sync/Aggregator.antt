-- ===== src/Sync/Aggregator.antt =====
-- sync/SalesAggregator.cpp: `AggregateDate`, with its index from app ids to rows.
pub mod Reference
pub mod Totals
use steam_sales_tray.Shared.{
  ℕ, zero, suc, Bool, not, ◌||◌, Option, none, some, List, [], ◌∷◌, ◌++◌, length, is_empty, ◌==◌,
  if◌then◌else◌,
}
use steam_sales_tray.Shared.Bytes.{Bytes, codes, bytes_eq}
use steam_sales_tray.Shared.Word.{Int64, add64}
use steam_sales_tray.Storage.Models.{DailyProductRow}
use steam_sales_tray.Steam.Models.{DetailedSalesRecord}

abbrev pub line_item_package : Bytes
line_item_package = codes "Package"

abbrev pub package_sale_steam : Bytes
package_sale_steam = codes "Steam"

-- the two early `continue`s
unfoldable pub is_skipped : DetailedSalesRecord → Bool
is_skipped rec =
    not (bytes_eq rec.line_item_type line_item_package)
    || not (bytes_eq rec.package_sale_type package_sale_steam)
    || rec.primary_app_id == 0

unfoldable pub new_row : DetailedSalesRecord → DailyProductRow
new_row rec = record {
  app_id = rec.primary_app_id;
  display_name = rec.primary_app_name;
  net_units_sold = rec.net_units_sold;
  gross_units_sold = rec.gross_units_sold;
  gross_units_returned = rec.gross_units_returned;
}

unfoldable pub add_to_row : DetailedSalesRecord → DailyProductRow → DailyProductRow
add_to_row rec row = record row {
  display_name = if is_empty rec.primary_app_name then row.display_name else rec.primary_app_name;
  net_units_sold = add64 row.net_units_sold rec.net_units_sold;
  gross_units_sold = add64 row.gross_units_sold rec.gross_units_sold;
  gross_units_returned = add64 row.gross_units_returned rec.gross_units_returned;
}

-- `indexByApp` and `rows`
pub record Aggregation : Type 0 where
  pub index_by_app : List (Int64 × ℕ)
  pub rows : List DailyProductRow

unfoldable pub find : Int64 → List (Int64 × ℕ) → Option ℕ
find a [] = none
find a ((b, i) ∷ index) = if b == a then some i else find a index

-- `rows[i]` changed in place
unfoldable pub change_at :
    ℕ → (DailyProductRow → DailyProductRow) → List DailyProductRow → List DailyProductRow
change_at i f [] = []
change_at zero f (row ∷ rows) = f row ∷ rows
change_at (suc i) f (row ∷ rows) = row ∷ change_at i f rows

unfoldable pub add_found : DetailedSalesRecord → Aggregation → Option ℕ → Aggregation
add_found rec acc none = record {
  index_by_app = (rec.primary_app_id, length acc.rows) ∷ acc.index_by_app;
  rows = acc.rows ++ new_row rec ∷ [];
}
add_found rec acc (some i) = record acc { rows = change_at i (add_to_row rec) acc.rows }

-- one round of the loop
unfoldable pub add_record : DetailedSalesRecord → Aggregation → Aggregation
add_record rec acc =
    if is_skipped rec then acc else add_found rec acc (find rec.primary_app_id acc.index_by_app)

unfoldable pub aggregate_from : Aggregation → List DetailedSalesRecord → Aggregation
aggregate_from acc [] = acc
aggregate_from acc (rec ∷ records) = aggregate_from (add_record rec acc) records

unfoldable pub aggregate_date : List DetailedSalesRecord → List DailyProductRow
aggregate_date records = (aggregate_from (record { index_by_app = []; rows = [] }) records).rows
