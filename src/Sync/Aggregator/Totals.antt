-- ===== src/Sync/Aggregator/Totals.antt =====
-- What the rows of `AggregateDate` hold: one row for each app with counted records, its sums modulo
-- 2 ^ 64, and its name.
use steam_sales_tray.Shared.{
  ℕ, ◌+◌, ◌%◌, ◌≡◌, refl, ◌∙◌, ap, Bool, false, ◌||◌, List, [], ◌∷◌, ◌==◌, if◌then◌else◌, arith,
  is_empty,
}
use steam_sales_tray.Shared.Bytes.{Bytes}
use steam_sales_tray.Shared.Word.{Int64, word_mod}
use steam_sales_tray.Storage.Models.{DailyProductRow, has_app, Distinct}
use steam_sales_tray.Steam.Models.{DetailedSalesRecord}
use steam_sales_tray.Sync.Aggregator.{is_skipped, new_row, add_to_row, aggregate_date}
use steam_sales_tray.Sync.Aggregator.Reference.{
  merge, merge_counted, merge_all, aggregate_date-merge_all,
}

-- Some record that counts is of the app.
pub has_counted : Int64 → List DetailedSalesRecord → Bool
has_counted a [] = false
has_counted a (rec ∷ records) =
    (if is_skipped rec then false else rec.primary_app_id == a) || has_counted a records

-- The three columns of units.
pub data Column : Type 0 where
  net gross returned : Column

abbrev pub record_column : Column → DetailedSalesRecord → Int64
record_column net rec = rec.net_units_sold
record_column gross rec = rec.gross_units_sold
record_column returned rec = rec.gross_units_returned

abbrev pub row_column : Column → DailyProductRow → Int64
row_column net row = row.net_units_sold
row_column gross row = row.gross_units_sold
row_column returned row = row.gross_units_returned

-- The sum of a column over the records of an app that count, with no wrap-around.
pub counted_sum : Column → Int64 → List DetailedSalesRecord → ℕ
counted_sum c a [] = 0
counted_sum c a (rec ∷ records) =
    (if is_skipped rec then 0 else if rec.primary_app_id == a then record_column c rec else 0)
    + counted_sum c a records

-- The sum of a column over the rows of an app.
unfoldable pub row_sum : Column → Int64 → List DailyProductRow → ℕ
row_sum c a [] = 0
row_sum c a (row ∷ rows) = (if row.app_id == a then row_column c row else 0) + row_sum c a rows

-- The last name that is not empty; `name` if there is none.
pub last_name : Bytes → Int64 → List DetailedSalesRecord → Bytes
last_name name a [] = name
last_name name a (rec ∷ records) =
    last_name
      (if is_skipped rec
        then name
        else if rec.primary_app_id == a
        then (if is_empty rec.primary_app_name then name else rec.primary_app_name)
        else name)
      a records

-- The name of an app's first row; empty if it has none.
pub row_name : Int64 → List DailyProductRow → Bytes
row_name a [] = []
row_name a (row ∷ rows) = if row.app_id == a then row.display_name else row_name a rows

has_app-merge :
    (a : Int64) (rec : DetailedSalesRecord) (rows : List DailyProductRow)
    → has_app a (merge rec rows) ≡ (rec.primary_app_id == a || has_app a rows)
unfolding merge new_row add_to_row
has_app-merge a rec [] = refl
has_app-merge a rec (row ∷ rows) = ground (arith, has_app-merge a rec rows)

merge-Distinct :
    (rec : DetailedSalesRecord) (rows : List DailyProductRow)
    → Distinct rows
    → Distinct (merge rec rows)
unfolding merge new_row add_to_row
merge-Distinct rec [] d = (refl, tt)
merge-Distinct rec (row ∷ rows) d =
    ground (arith, merge-Distinct rec rows d.1, has_app-merge row.app_id rec rows)

merge_all-Distinct :
    (rows : List DailyProductRow) (records : List DetailedSalesRecord)
    → Distinct rows
    → Distinct (merge_all rows records)
unfolding merge_all merge_counted
merge_all-Distinct rows [] d = d
merge_all-Distinct rows (rec ∷ records) d =
    merge_all-Distinct (merge_counted rec rows) records (ground (arith, merge-Distinct rec rows d))

-- No two rows of an aggregated date are of one app.
pub aggregate_date-Distinct :
    (records : List DetailedSalesRecord) → Distinct (aggregate_date records)
aggregate_date-Distinct records =
    rw (aggregate_date-merge_all records) (merge_all-Distinct [] records tt)

has_app-merge_all :
    (a : Int64) (rows : List DailyProductRow) (records : List DetailedSalesRecord)
    → has_app a (merge_all rows records) ≡ (has_app a rows || has_counted a records)
unfolding merge_all merge_counted has_counted
has_app-merge_all a rows [] = ground arith
has_app-merge_all a rows (rec ∷ records) =
    ground (arith, has_app-merge_all a (merge_counted rec rows) records, has_app-merge a rec rows)

-- An aggregated date has a row of an app exactly when some record of the app counts.
pub has_app-aggregate_date :
    (a : Int64) (records : List DetailedSalesRecord)
    → has_app a (aggregate_date records) ≡ has_counted a records
has_app-aggregate_date a records =
    rw (aggregate_date-merge_all records) (has_app-merge_all a [] records)

row_column-new_row :
    (c : Column) (rec : DetailedSalesRecord) → row_column c (new_row rec) ≡ record_column c rec
unfolding new_row
row_column-new_row net rec = refl
row_column-new_row gross rec = refl
row_column-new_row returned rec = refl

row_column-add_to_row :
    (c : Column) (rec : DetailedSalesRecord) (row : DailyProductRow)
    → row_column c (add_to_row rec row) ≡ (row_column c row + record_column c rec) % word_mod
unfolding add_to_row
row_column-add_to_row net rec row = refl
row_column-add_to_row gross rec row = refl
row_column-add_to_row returned rec row = refl

app_id-add_to_row :
    (rec : DetailedSalesRecord) (row : DailyProductRow) → (add_to_row rec row).app_id ≡ row.app_id
unfolding add_to_row
app_id-add_to_row rec row = refl

app_id-new_row : (rec : DetailedSalesRecord) → (new_row rec).app_id ≡ rec.primary_app_id
unfolding new_row
app_id-new_row rec = refl

row_sum-merge :
    (c : Column) (a : Int64) (rec : DetailedSalesRecord) (rows : List DailyProductRow)
    → row_sum c a (merge rec rows) % word_mod
      ≡ ((if rec.primary_app_id == a then record_column c rec else 0) + row_sum c a rows) % word_mod
unfolding merge row_sum
row_sum-merge c a rec [] = ground (arith, row_column-new_row c rec, app_id-new_row rec)
row_sum-merge c a rec (row ∷ rows) =
    ground (
      arith,
      row_sum-merge c a rec rows,
      row_column-add_to_row c rec row,
      app_id-add_to_row rec row,
    )

row_sum-merge_all :
    (c : Column) (a : Int64) (rows : List DailyProductRow) (records : List DetailedSalesRecord)
    → row_sum c a (merge_all rows records) % word_mod
      ≡ (row_sum c a rows + counted_sum c a records) % word_mod
unfolding merge_all merge_counted counted_sum
row_sum-merge_all c a rows [] = omega arith
row_sum-merge_all c a rows (rec ∷ records) =
    ground
      (arith, row_sum-merge_all c a (merge_counted rec rows) records, row_sum-merge c a rec rows)

-- For each column and app, the units of the app's row in an aggregated date are, modulo 2 ^ 64, the
-- sum over the records of the app that count.
pub row_sum-aggregate_date :
    (c : Column) (a : Int64) (records : List DetailedSalesRecord)
    → row_sum c a (aggregate_date records) % word_mod ≡ counted_sum c a records % word_mod
unfolding row_sum
row_sum-aggregate_date c a records =
    rw (aggregate_date-merge_all records) (omega (arith, row_sum-merge_all c a [] records))

or_empty : (name : Bytes) → (if is_empty name then [] else name) ≡ name
or_empty [] = refl
or_empty (b ∷ bs) = refl

row_name-merge :
    (a : Int64) (rec : DetailedSalesRecord) (rows : List DailyProductRow)
    → row_name a (merge rec rows) ≡ (
        if rec.primary_app_id == a
        then (if is_empty rec.primary_app_name then row_name a rows else rec.primary_app_name)
        else row_name a rows)
unfolding merge row_name new_row add_to_row
row_name-merge a rec [] = ground (arith, or_empty rec.primary_app_name)
row_name-merge a rec (row ∷ rows) = ground (arith, row_name-merge a rec rows)

row_name-merge_all :
    (a : Int64) (rows : List DailyProductRow) (records : List DetailedSalesRecord)
    → row_name a (merge_all rows records) ≡ last_name (row_name a rows) a records
unfolding merge_all merge_counted last_name
row_name-merge_all a rows [] = refl
row_name-merge_all a rows (rec ∷ records) =
    row_name-merge_all a (merge_counted rec rows) records
    ∙ ap (λ name. last_name name a records) (ground (arith, row_name-merge a rec rows))

-- The row of an app has the last name that is not empty among the records of the app that count,
-- and the empty name if none of them has a name.
pub row_name-aggregate_date :
    (a : Int64) (records : List DetailedSalesRecord)
    → row_name a (aggregate_date records) ≡ last_name [] a records
unfolding row_name
row_name-aggregate_date a records =
    rw (aggregate_date-merge_all records) (row_name-merge_all a [] records)
