-- ===== src/Storage/Queries/Sums.antt =====
-- The sums of storage/Database.cpp against each other: the rows of a period, added up as the sales
-- window does, and the one sum of the same sales.
pub mod Products
use steam_sales_tray.Storage.Queries.{
  fetch_rows, select_rows, sum_checked, add_sale, sum_from, sum_units, step_row, or_zero_units,
  run_scalar_sum, Group, insert_group, order_groups, sales_of, add_group, group_sales, or_no_groups,
  product_units, run_product_query, date_rows, left_join, query_date, sum_for_date,
}
use steam_sales_tray.Storage.Models.{ProductUnits}
use steam_sales_tray.Storage.Connection.FaultFree.{IsSound}
use steam_sales_tray.Storage.Connection.{
  Product, DailyProductSale, Tables, Connection, prepare, call, ◌⊳◌,
}
use steam_sales_tray.Shared.{
  ℕ, suc, ◌+◌, ◌%◌, ◌<◌, ◌≡◌, ◌≢◌, refl, ap, ◌∙◌, inl, inr, Bool, true, Option, none, some, List,
  [], ◌∷◌, ◌++◌, select, map, All, ◌==◌, if◌then◌else◌, arith, Bool-cases,
}
use steam_sales_tray.Shared.Bytes.{Bytes, Wide, bytes_eq}
use steam_sales_tray.Shared.Word.{Int64, add64, word_mod}
use steam_sales_tray.Storage.Queries.Sums.Products.{
  units_sum, groups_sum, rows_sum, by_products, products_of, HasOneProduct, sum_from-units_sum,
  by_products-units_sum, groups_sum-order, groups_sum-left_join,
}

add_group-sum :
    (p : Product) (units : Option Int64) (rest : Option (List Group)) (gs : List Group)
    → add_group p units rest ≡ some gs
    → (v : Int64) × (hs : List Group) × (units ≡ some v)
      × (rest ≡ some hs)
      × (groups_sum gs ≡ v + groups_sum hs)
unfolding add_group
add_group-sum p none none gs e = ground arith
add_group-sum p none (some hs) gs e = ground arith
add_group-sum p (some v) none gs e = ground arith
add_group-sum p (some v) (some hs) gs e = (v, hs, refl, refl, ground arith)

add_product-sum :
    (p : Product) (mine : List DailyProductSale) (rest : Option (List Group)) (gs : List Group)
    (n : ℕ)
    → elim mine [ [] ↦ rest | s ∷ more ↦ add_group p (sum_units (s ∷ more)) rest ] ≡ some gs
    → ((hs : List Group) → rest ≡ some hs → groups_sum hs % word_mod ≡ n % word_mod)
    → groups_sum gs % word_mod ≡ (units_sum mine + n) % word_mod
unfolding sum_units
add_product-sum p [] rest gs n e h = h gs e ∙ omega arith
add_product-sum p (s ∷ more) rest gs n e h =
    let (v, hs, summed, same, total) = add_group-sum p (sum_units (s ∷ more)) rest gs e in
    let whole = sum_from-units_sum 0 (s ∷ more) v (omega arith) summed in
    omega (arith, total, whole, h hs same)

groups_sum-group_sales :
    (products : List Product) (sales : List DailyProductSale) (gs : List Group)
    → group_sales products sales ≡ some gs
    → groups_sum gs % word_mod ≡ by_products products sales % word_mod
unfolding group_sales sum_units
groups_sum-group_sales [] sales gs e = ground arith
groups_sum-group_sales (p ∷ products) sales gs e =
    add_product-sum p (sales_of p.app_id sales) (group_sales products sales) gs
      (by_products products sales) e (groups_sum-group_sales products sales)

rows_sum-map :
    (u : Bytes → Wide) (gs : List Group) → rows_sum (map (product_units u) gs) ≡ groups_sum gs
unfolding product_units
rows_sum-map u [] = refl
rows_sum-map u (g ∷ gs) = omega (arith, rows_sum-map u gs)

select-HasOneProduct :
    (products : List Product) (test : DailyProductSale → Bool) (sales : List DailyProductSale)
    → HasOneProduct products sales
    → HasOneProduct products (select test sales)
select-HasOneProduct products test [] h = tt
select-HasOneProduct products test (s ∷ sales) h = elim (Bool-cases (test s)) [
  | inl e ↦ rw e (h.0, select-HasOneProduct products test sales h.1)
  | inr e ↦ rw e (select-HasOneProduct products test sales h.1)
]

-- No sum of the sales that pass a test leaves the signed 64 bits, neither that of a product nor that
-- of all of them.
abbrev pub FitsInWord : (DailyProductSale → Bool) → Tables → Type 0
FitsInWord test t =
    (v : Int64) × (gs : List Group) × (sum_units (select test t.daily_product_sales) ≡ some v)
    × (group_sales t.products (select test t.daily_product_sales) ≡ some gs)

-- the one sum of the sales that pass a test, and the sums by product
summed_alike :
    (t : Tables) (test : DailyProductSale → Bool) (v : Int64)
    → HasOneProduct t.products t.daily_product_sales
    → sum_units (select test t.daily_product_sales) ≡ some v
    → by_products t.products (select test t.daily_product_sales) % word_mod ≡ v
unfolding sum_units
summed_alike t test v one summed =
    let sales = select test t.daily_product_sales in
    omega (
      arith,
      by_products-units_sum t.products sales
          (select-HasOneProduct t.products test t.daily_product_sales one),
      sum_from-units_sum 0 sales v (omega arith) summed,
    )

fetch_rows_sound :
    {A : Type 0} (rows : List A) (c : Connection) → IsSound c → (fetch_rows rows c).0 ≡ rows
unfolding fetch_rows call
fetch_rows_sound [] c v = refl
fetch_rows_sound (row ∷ rows) c v =
    rw (v.opened, v.answers)
      (ap (λ rest. row ∷ rest)
        (fetch_rows_sound rows (record c { is_open = true; outcomes = [] })
          (record { opened = refl; answers = refl })))

select_rows_sound :
    {A : Type 0} (rows : Tables → List A) (c : Connection)
    → IsSound c
    → (select_rows rows c).0 ≡ rows c.tables
unfolding select_rows prepare call
select_rows_sound rows c v =
    rw (v.opened, v.answers)
      (fetch_rows_sound (rows c.tables) (record c { is_open = true; outcomes = [] })
        (record { opened = refl; answers = refl }))

step_row_sound :
    {A : Type 0} (column : Tables → Option A) (c : Connection)
    → IsSound c
    → (step_row column c).0 ≡ column c.tables
unfolding step_row prepare call ◌⊳◌
step_row_sound column c v = rw (v.opened, v.answers) refl

pub rows_sum-run_product_query :
    (u : Bytes → Wide) (test : DailyProductSale → Bool) (c : Connection)
    → IsSound c
    → HasOneProduct c.tables.products c.tables.daily_product_sales
    → FitsInWord test c.tables
    → rows_sum (run_product_query u test c).0 % word_mod ≡ (run_scalar_sum test c).0
unfolding run_product_query run_scalar_sum or_no_groups or_zero_units
rows_sum-run_product_query u test c sound one (v, gs, summed, grouped) =
    rw (select_rows_sound _ c sound, step_row_sound _ c sound, summed, grouped)
      (omega (
        arith,
        rows_sum-map u (order_groups gs),
        groups_sum-order gs,
        groups_sum-group_sales _ _ gs grouped,
        summed_alike c.tables test v one summed,
      ))

pub rows_sum-query_date :
    (u : Bytes → Wide) (date : Bytes) (c : Connection)
    → IsSound c
    → HasOneProduct c.tables.products c.tables.daily_product_sales
    → FitsInWord (λ s. bytes_eq s.financial_date date) c.tables
    → rows_sum (query_date u date c).0 % word_mod ≡ (sum_for_date date c).0
unfolding query_date sum_for_date run_scalar_sum or_zero_units
rows_sum-query_date u date c sound one (v, gs, summed, grouped) =
    let t = c.tables in
    let sales = select (λ s. bytes_eq s.financial_date date) t.daily_product_sales in
    rw (select_rows_sound _ c sound, step_row_sound _ c sound, summed)
      (omega (
        arith,
        rows_sum-map u (order_groups (left_join t.products sales)),
        groups_sum-order (left_join t.products sales),
        groups_sum-left_join t.products sales,
        summed_alike t (λ s. bytes_eq s.financial_date date) v one summed,
      ))
