-- ===== src/Storage/Queries.antt =====
-- The SELECTs of storage/Database.cpp that sum units. SQLite adds 64-bit integers exactly and stops
-- with an error where a sum does not fit.
pub mod Sums
use steam_sales_tray.Shared.{
  ℕ, ◌+◌, ◌%◌, Bool, true, not, ◌&&◌, ◌||◌, Option, none, some, List, [], ◌∷◌, ◌++◌, select, map,
  ltb, leb, ◌==◌, if◌then◌else◌,
}
use steam_sales_tray.Shared.Bytes.{Bytes, Wide, bytes_eq, bytes_leb}
use steam_sales_tray.Shared.Word.{Int64, add64, is_negative, sign_bit, word_mod}
use steam_sales_tray.Storage.Models.{ProductUnits}
use steam_sales_tray.Storage.Connection.{
  Product, DailyProductSale, Tables, Connection, call, prepare, ◌⊳◌,
}

-- `none` where the sum of two signed integers does not fit.
unfoldable pub sum_checked : Int64 → Int64 → Option Int64
sum_checked a b =
    let s = add64 a b in
    if is_negative a && is_negative b && not (is_negative s)
    then none
    else if not (is_negative a) && not (is_negative b) && is_negative s
    then none
    else some s

unfoldable pub add_sale : DailyProductSale → Option Int64 → Option Int64
add_sale s none = none
add_sale s (some total) = sum_checked total s.net_units_sold

-- SUM(net_units_sold), 0 for no rows
unfoldable pub sum_from : Option Int64 → List DailyProductSale → Option Int64
sum_from total [] = total
sum_from total (s ∷ sales) = sum_from (add_sale s total) sales

unfoldable pub sum_units : List DailyProductSale → Option Int64
unfolding sum_from
sum_units = sum_from (some 0)

-- One step of a SELECT, which fails where the value it computes does not exist.
unfoldable pub step_row {ℓ} :
    {A : Type ℓ} → (Tables → Option A) → Connection → Option A × Connection
step_row column c =
    let (ok, c') = (prepare ⊳ call (λ d. (true, d))) c in
    (if ok then column c'.tables else none, c')

unfoldable pub or_zero_units : Option Int64 → Int64
or_zero_units none = 0
or_zero_units (some total) = total

-- `RunScalarSum` over the sales that pass the WHERE clause
unfoldable pub run_scalar_sum : (DailyProductSale → Bool) → Connection → Int64 × Connection
unfolding or_zero_units
run_scalar_sum test c =
    let (total, c') = step_row (λ t. sum_units (select test t.daily_product_sales)) c in
    (or_zero_units total, c')

unfoldable pub sum_for_date : Bytes → Connection → Int64 × Connection
sum_for_date date = run_scalar_sum λ s. bytes_eq s.financial_date date

unfoldable pub sum_for_range : Bytes → Bytes → Connection → Int64 × Connection
sum_for_range start end =
    run_scalar_sum λ s. bytes_leb start s.financial_date && bytes_leb s.financial_date end

unfoldable pub sum_lifetime : Connection → Int64 × Connection
sum_lifetime = run_scalar_sum λ s. true

-- One group of a GROUP BY p.app_id, before its name is converted.
pub record Group : Type 0 where
  pub app_id : Int64
  pub name : Bytes
  pub units : Int64

-- signed comparison of two 64-bit integers
unfoldable pub less_signed : Int64 → Int64 → Bool
less_signed a b = ltb ((a + sign_bit) % word_mod) ((b + sign_bit) % word_mod)

-- COLLATE NOCASE folds the ASCII letters.
unfoldable pub fold_case : ℕ → ℕ
fold_case c = if leb b'A' c && leb c b'Z' then c + 32 else c

-- ORDER BY units DESC, p.display_name COLLATE NOCASE
unfoldable pub comes_first : Group → Group → Bool
unfolding less_signed fold_case
comes_first g h =
    less_signed h.units g.units
    || (g.units == h.units && bytes_leb (map fold_case g.name) (map fold_case h.name))

unfoldable pub insert_group : Group → List Group → List Group
insert_group g [] = g ∷ []
insert_group g (h ∷ groups) = if comes_first g h then g ∷ h ∷ groups else h ∷ insert_group g groups

unfoldable pub order_groups : List Group → List Group
order_groups [] = []
order_groups (g ∷ groups) = insert_group g (order_groups groups)

abbrev pub sales_of : Int64 → List DailyProductSale → List DailyProductSale
sales_of a sales = select (λ s. s.app_id == a) sales

unfoldable pub add_group : Product → Option Int64 → Option (List Group) → Option (List Group)
add_group p (some units) (some groups) =
    some (record { app_id = p.app_id; name = p.display_name; units = units } ∷ groups)
add_group p (some units) none = none
add_group p none groups = none

-- The products with sales, each with its sum: an inner join, grouped. One sum that does not fit ends
-- the whole query, since no row comes out before the groups are sorted.
unfoldable pub group_sales : List Product → List DailyProductSale → Option (List Group)
group_sales [] sales = some []
group_sales (p ∷ products) sales =
    let rest = group_sales products sales in
    elim (sales_of p.app_id sales) [
      | [] ↦ rest
      | s ∷ more ↦ add_group p (sum_units (s ∷ more)) rest
    ]

unfoldable pub or_no_groups : Option (List Group) → List Group
or_no_groups none = []
or_no_groups (some groups) = order_groups groups

-- The loop of `RunProductQuery` over the rows that the engine computes: a step for each, and one that
-- ends it. A step that fails ends it too, with the rows read so far.
unfoldable pub fetch_rows {ℓ} : {A : Type ℓ} → List A → Connection → List A × Connection
fetch_rows [] c = ([], (call (λ d. (true, d)) c).1)
fetch_rows (row ∷ rows) c =
    let (ok, c') = call (λ d. (true, d)) c in
    let rest = fetch_rows rows c' in if ok then (row ∷ rest.0, rest.1) else ([], c')

-- A SELECT of several rows, with no row where it cannot be prepared.
unfoldable pub select_rows {ℓ} : {A : Type ℓ} → (Tables → List A) → Connection → List A × Connection
unfolding fetch_rows
select_rows rows c =
    let (ok, c') = prepare c in
    let fetched = fetch_rows (rows c'.tables) c' in if ok then fetched else ([], c')

-- A row of `RunProductQuery`, whose conversion of names is the Win32 call behind Utf8ToWide
unfoldable pub product_units : (Bytes → Wide) → Group → ProductUnits
product_units utf8_to_wide g = record {
  app_id = g.app_id;
  display_name = utf8_to_wide g.name;
  units = g.units;
}

unfoldable pub run_product_query :
    (Bytes → Wide) → (DailyProductSale → Bool) → Connection → List ProductUnits × Connection
unfolding or_no_groups product_units
run_product_query utf8_to_wide test c =
    let (groups, c') =
      select_rows (λ t. or_no_groups (group_sales t.products (select test t.daily_product_sales)))
        c in
    (map (product_units utf8_to_wide) groups, c')

unfoldable pub query_range :
    (Bytes → Wide) → Bytes → Bytes → Connection → List ProductUnits × Connection
query_range utf8_to_wide start end =
    run_product_query utf8_to_wide
      λ s. bytes_leb start s.financial_date && bytes_leb s.financial_date end

unfoldable pub query_lifetime : (Bytes → Wide) → Connection → List ProductUnits × Connection
query_lifetime utf8_to_wide = run_product_query utf8_to_wide λ s. true

-- A row of the LEFT JOIN: COALESCE(s.net_units_sold, 0)
unfoldable pub date_rows : Product → List DailyProductSale → List Group
date_rows p [] = record { app_id = p.app_id; name = p.display_name; units = 0 } ∷ []
date_rows p sales =
    map (λ s. record { app_id = p.app_id; name = p.display_name; units = s.net_units_sold }) sales

unfoldable pub left_join : List Product → List DailyProductSale → List Group
unfolding date_rows
left_join [] sales = []
left_join (p ∷ products) sales = date_rows p (sales_of p.app_id sales) ++ left_join products sales

-- every product, with the units of one date
unfoldable pub query_date : (Bytes → Wide) → Bytes → Connection → List ProductUnits × Connection
unfolding left_join product_units
query_date utf8_to_wide date c =
    let (groups, c') =
      select_rows
        (λ t. order_groups (
          left_join t.products
            (select (λ s. bytes_eq s.financial_date date) t.daily_product_sales)))
        c in
    (map (product_units utf8_to_wide) groups, c')
