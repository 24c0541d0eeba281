-- ===== src/Sync/Aggregator/Reference.antt =====
-- `AggregateDate` without its index: a plain search through the rows, and their equivalence.
use steam_sales_tray.Shared.{
  ℕ, zero, suc, ◌≡◌, refl, ◌∙◌, sym, ap, Bool-cases, inl, inr, Option, none, some, List, [], ◌∷◌,
  ◌++◌, length, ◌==◌, if◌then◌else◌, arith,
}
use steam_sales_tray.Shared.Word.{Int64}
use steam_sales_tray.Storage.Models.{DailyProductRow}
use steam_sales_tray.Steam.Models.{DetailedSalesRecord}
use steam_sales_tray.Sync.Aggregator.{
  Aggregation, is_skipped, new_row, add_to_row, find, change_at, add_found, add_record,
  aggregate_from, aggregate_date,
}

-- Adds a record to the row of its app, or a new row at the end.
unfoldable pub merge : DetailedSalesRecord → List DailyProductRow → List DailyProductRow
merge rec [] = new_row rec ∷ []
merge rec (row ∷ rows) =
    if row.app_id == rec.primary_app_id then add_to_row rec row ∷ rows else row ∷ merge rec rows

unfoldable pub merge_counted : DetailedSalesRecord → List DailyProductRow → List DailyProductRow
merge_counted rec rows = if is_skipped rec then rows else merge rec rows

unfoldable pub merge_all : List DailyProductRow → List DetailedSalesRecord → List DailyProductRow
merge_all rows [] = rows
merge_all rows (rec ∷ records) = merge_all (merge_counted rec rows) records

next : Option ℕ → Option ℕ
next none = none
next (some i) = some (suc i)

-- The position of an app's first row.
position : Int64 → List DailyProductRow → Option ℕ
unfolding next
position a [] = none
position a (row ∷ rows) = if row.app_id == a then some 0 else next (position a rows)

-- The index holds the position of each app.
record IsIndexed (acc : Aggregation) : Type 0 where
  at : (a : Int64) → find a acc.index_by_app ≡ position a acc.rows

position-append :
    (a : Int64) (rows : List DailyProductRow) (row : DailyProductRow)
    → position row.app_id rows ≡ none
    → position a (rows ++ row ∷ [])
      ≡ (if row.app_id == a then some (length rows) else position a rows)
unfolding position
position-append a [] row h = ground arith
position-append a (r ∷ rows) row h = ground (arith, position-append a rows row)

merge_missing :
    (rec : DetailedSalesRecord) (rows : List DailyProductRow)
    → position rec.primary_app_id rows ≡ none
    → merge rec rows ≡ rows ++ new_row rec ∷ []
unfolding merge position
merge_missing rec [] h = refl
merge_missing rec (row ∷ rows) h = ground (arith, merge_missing rec rows)

merge_found :
    (rec : DetailedSalesRecord) (i : ℕ) (rows : List DailyProductRow)
    → position rec.primary_app_id rows ≡ some i
    → merge rec rows ≡ change_at i (add_to_row rec) rows
unfolding merge position change_at
merge_found rec i [] h = ground arith
merge_found rec zero (row ∷ rows) h = ground arith
merge_found rec (suc i) (row ∷ rows) h = ground (arith, merge_found rec i rows)

-- A change that keeps the app ids keeps the positions.
position-change_at :
    (a : Int64) (i : ℕ) (rec : DetailedSalesRecord) (rows : List DailyProductRow)
    → position a (change_at i (add_to_row rec) rows) ≡ position a rows
unfolding position change_at add_to_row
position-change_at a i rec [] = refl
position-change_at a zero rec (row ∷ rows) = refl
position-change_at a (suc i) rec (row ∷ rows) = ground (arith, position-change_at a i rec rows)

add_found-merge :
    (rec : DetailedSalesRecord) (acc : Aggregation) (o : Option ℕ)
    → position rec.primary_app_id acc.rows ≡ o
    → (add_found rec acc o).rows ≡ merge rec acc.rows
unfolding add_found
add_found-merge rec acc none h = sym (merge_missing rec acc.rows h)
add_found-merge rec acc (some i) h = sym (merge_found rec i acc.rows h)

add_found-IsIndexed :
    (rec : DetailedSalesRecord) (acc : Aggregation) (o : Option ℕ)
    → position rec.primary_app_id acc.rows ≡ o
    → IsIndexed acc
    → IsIndexed (add_found rec acc o)
unfolding add_found find new_row
add_found-IsIndexed rec acc none h v = record {
  at = λ a. ground (arith, v.at a, position-append a acc.rows (new_row rec));
}
add_found-IsIndexed rec acc (some i) h v = record {
  at = λ a. v.at a ∙ sym (position-change_at a i rec acc.rows);
}

add_record-merge :
    (rec : DetailedSalesRecord) (acc : Aggregation)
    → IsIndexed acc
    → ((add_record rec acc).rows ≡ merge_counted rec acc.rows) × IsIndexed (add_record rec acc)
unfolding add_record merge_counted
add_record-merge rec acc v = elim (Bool-cases (is_skipped rec)) [
  | inl skipped ↦ rw skipped (refl, v)
  | inr counted ↦
      let found = sym (v.at rec.primary_app_id) in
      rw counted (add_found-merge rec acc _ found, add_found-IsIndexed rec acc _ found v)
]

aggregate_from-merge_all :
    (acc : Aggregation) (records : List DetailedSalesRecord)
    → IsIndexed acc
    → (aggregate_from acc records).rows ≡ merge_all acc.rows records
unfolding aggregate_from merge_all
aggregate_from-merge_all acc [] v = refl
aggregate_from-merge_all acc (rec ∷ records) v =
    let step = add_record-merge rec acc v in
    aggregate_from-merge_all (add_record rec acc) records step.1
    ∙ ap (λ rows. merge_all rows records) step.0

-- The rows that the index finds are those that a plain search of the rows for the record's app
-- finds: the fast aggregation and the merge of the records, one by one, give the same list.
pub aggregate_date-merge_all :
    (records : List DetailedSalesRecord) → aggregate_date records ≡ merge_all [] records
unfolding aggregate_date find position
aggregate_date-merge_all records =
    aggregate_from-merge_all (record { index_by_app = []; rows = [] }) records
      (record { at = λ a. refl })
