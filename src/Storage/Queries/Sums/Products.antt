-- ===== src/Storage/Queries/Sums/Products.antt =====
-- The sums of sales by product: each sale counts for exactly one product.
use steam_sales_tray.Storage.Queries.{
  sum_checked, add_sale, sum_from, Group, insert_group, order_groups, sales_of, date_rows,
  left_join,
}
use steam_sales_tray.Storage.Models.{ProductUnits}
use steam_sales_tray.Storage.Connection.{Product, DailyProductSale}
use steam_sales_tray.Shared.{
  ℕ, suc, ◌+◌, ◌%◌, ◌<◌, ◌≡◌, ◌≢◌, refl, ap, ◌∙◌, inl, inr, none, some, List, [], ◌∷◌, ◌++◌, map,
  All, ◌==◌, if◌then◌else◌, arith, Bool-cases,
}
use steam_sales_tray.Shared.Word.{Int64, add64, word_mod}

-- the sums without the wrap
abbrev pub units_sum : List DailyProductSale → ℕ
units_sum [] = 0
units_sum (s ∷ sales) = s.net_units_sold + units_sum sales

abbrev pub groups_sum : List Group → ℕ
groups_sum [] = 0
groups_sum (g ∷ groups) = g.units + groups_sum groups

abbrev pub rows_sum : List ProductUnits → ℕ
rows_sum [] = 0
rows_sum (r ∷ rows) = r.units + rows_sum rows

-- how many products have an app
abbrev pub products_of : Int64 → List Product → ℕ
products_of a [] = 0
products_of a (p ∷ products) =
    let rest = products_of a products in if a == p.app_id then suc rest else rest

-- the sales of each product, added up
abbrev pub by_products : List Product → List DailyProductSale → ℕ
by_products [] sales = 0
by_products (p ∷ products) sales = units_sum (sales_of p.app_id sales) + by_products products sales

sum_from-none : (sales : List DailyProductSale) (v : Int64) → sum_from none sales ≢ some v
unfolding sum_from add_sale
sum_from-none [] v e = ground arith
sum_from-none (s ∷ sales) v e = sum_from-none sales v e

add_mod : (a b n : ℕ) → ((a + b) % word_mod + n) % word_mod ≡ (a + (b + n)) % word_mod
add_mod a b n = omega arith

pub sum_from-units_sum :
    (t : Int64) (sales : List DailyProductSale) (v : Int64)
    → t < word_mod
    → sum_from (some t) sales ≡ some v
    → v ≡ (t + units_sum sales) % word_mod
unfolding sum_from add_sale sum_checked
sum_from-units_sum t [] v small e = ground arith
sum_from-units_sum t (s ∷ sales) v small e = ground (
  arith,
  sum_from-none sales v,
  sum_from-units_sum (add64 t s.net_units_sold) sales v (omega arith),
)

by_products_skip :
    (products : List Product) (s : DailyProductSale) (sales : List DailyProductSale)
    → products_of s.app_id products ≡ 0
    → by_products products (s ∷ sales) ≡ by_products products sales
by_products_skip [] s sales h = refl
by_products_skip (p ∷ products) s sales h = elim (Bool-cases (s.app_id == p.app_id)) [
  | inl e ↦ ground arith
  | inr e ↦ rw e (
      ap (λ n. units_sum (sales_of p.app_id sales) + n)
        (by_products_skip products s sales (ground arith)))
]

by_products_count :
    (products : List Product) (s : DailyProductSale) (sales : List DailyProductSale)
    → products_of s.app_id products ≡ 1
    → by_products products (s ∷ sales) ≡ s.net_units_sold + by_products products sales
by_products_count [] s sales h = ground arith
by_products_count (p ∷ products) s sales h = elim (Bool-cases (s.app_id == p.app_id)) [
  | inl e ↦
      let skip = by_products_skip products s sales (ground arith) in rw e (omega (arith, skip))
  | inr e ↦
      let count = by_products_count products s sales (ground arith) in rw e (omega (arith, count))
]

by_products_nil : (products : List Product) → by_products products [] ≡ 0
by_products_nil [] = refl
by_products_nil (p ∷ products) = omega (arith, by_products_nil products)

-- the primary key of the products, and the foreign key of the sales
abbrev pub HasOneProduct : List Product → List DailyProductSale → Type 0
HasOneProduct products = All (λ s. products_of s.app_id products ≡ 1)

pub by_products-units_sum :
    (products : List Product) (sales : List DailyProductSale)
    → HasOneProduct products sales
    → by_products products sales ≡ units_sum sales
by_products-units_sum products [] h = by_products_nil products
by_products-units_sum products (s ∷ sales) h =
    ground (arith, by_products_count products s sales h.0, by_products-units_sum products sales h.1)

groups_sum-append : (g h : List Group) → groups_sum (g ++ h) ≡ groups_sum g + groups_sum h
groups_sum-append [] h = omega arith
groups_sum-append (x ∷ g) h = omega (arith, groups_sum-append g h)

groups_sum-insert :
    (g : Group) (hs : List Group) → groups_sum (insert_group g hs) ≡ g.units + groups_sum hs
unfolding insert_group
groups_sum-insert g [] = refl
groups_sum-insert g (h ∷ hs) = ground (arith, groups_sum-insert g hs)

pub groups_sum-order : (hs : List Group) → groups_sum (order_groups hs) ≡ groups_sum hs
unfolding order_groups
groups_sum-order [] = refl
groups_sum-order (h ∷ hs) =
    groups_sum-insert h (order_groups hs) ∙ ap (λ n. h.units + n) (groups_sum-order hs)

groups_sum-map :
    (p : Product) (sales : List DailyProductSale)
    → groups_sum (
        map
          (λ s. record { app_id = p.app_id; name = p.display_name; units = s.net_units_sold })
          sales)
      ≡ units_sum sales
groups_sum-map p [] = refl
groups_sum-map p (s ∷ sales) = omega (arith, groups_sum-map p sales)

groups_sum-date_rows :
    (p : Product) (sales : List DailyProductSale) → groups_sum (date_rows p sales) ≡ units_sum sales
unfolding date_rows
groups_sum-date_rows p [] = omega arith
groups_sum-date_rows p (s ∷ sales) = groups_sum-map p (s ∷ sales)

pub groups_sum-left_join :
    (products : List Product) (sales : List DailyProductSale)
    → groups_sum (left_join products sales) ≡ by_products products sales
unfolding left_join
groups_sum-left_join [] sales = refl
groups_sum-left_join (p ∷ products) sales = omega (
  arith,
  groups_sum-append (date_rows p (sales_of p.app_id sales)) (left_join products sales),
  groups_sum-date_rows p (sales_of p.app_id sales),
  groups_sum-left_join products sales,
)
