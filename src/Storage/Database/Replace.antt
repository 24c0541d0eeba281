-- ===== src/Storage/Database/Replace.antt =====
-- `ReplaceDate` is one atomic change of the tables: the date's sales are the given rows, and the
-- sales of other dates stay.
pub mod Changes
use steam_sales_tray.Shared.{
  ◌≡◌, ◌⊎◌, refl, sym, ap, ◌∙◌, Bool, true, false, not, ◌||◌, none, some, List, [], ◌∷◌, ◌++◌, map,
  select, select-append, ◌==◌, arith, Bool-cases, inl, inr, ==_refl,
}
use mathlib.Core.List.{append-nil, append_assoc}
use steam_sales_tray.Shared.Bytes.{Bytes, bytes_eq, bytes_eq_iff}
use steam_sales_tray.Shared.Word.{Int64}
use steam_sales_tray.Storage.Models.{DailyProductRow, has_app, Distinct}
use steam_sales_tray.Storage.Connection.{
  Tables, Product, DailyProductSale, Connection, committed, Change,
}
use steam_sales_tray.Storage.Connection.Atomic.{
  Performs, then_change, then_change-eq-some, prepare-Performs, statement-Performs, ⊳-Performs,
  then_change-step, transaction-Atomic, when_open-Atomic,
}
use steam_sales_tray.Storage.Connection.FaultFree.{
  IsSound, Achieves, prepare-Achieves, statement-Achieves, ⊳-Achieves, transaction-achieves,
  when_open_sound,
}
use steam_sales_tray.Storage.Database.{
  delete_date, upsert, upsert_product, has_product, has_sale, insert_daily, product_of, sale_of,
  store_row, store_rows, replace_body, replace_date,
}
use steam_sales_tray.Storage.Database.Replace.Changes.{
  row_change, rows_change, replace_change, replace_body-Performs, replace_body-Achieves,
  rows_change-effect, select-map-same, select-select-not,
}

-- Only the rows of the date are new, and they are all there.
pub record IsReplaced (date : Bytes) (rows : List DailyProductRow) (t t' : Tables) : Type 0 where
  pub dated :
      select (λ s. bytes_eq s.financial_date date) t'.daily_product_sales ≡ map (sale_of date) rows
  pub others :
      select (λ s. not (bytes_eq s.financial_date date)) t'.daily_product_sales
      ≡ select (λ s. not (bytes_eq s.financial_date date)) t.daily_product_sales
  pub state : t'.sync_state ≡ t.sync_state

replace_change-IsReplaced :
    (date now_utc : Bytes) (rows : List DailyProductRow) (t t' : Tables)
    → replace_change date rows now_utc t ≡ some t'
    → IsReplaced date rows t t'
unfolding replace_change then_change delete_date
replace_change-IsReplaced date now_utc rows t t' h =
    let (d, s) = rows_change-effect date now_utc rows _ t' h in
    let (a, b) = select-map-same date rows in
    let (a', b') = select-select-not (λ s. bytes_eq s.financial_date date) t.daily_product_sales in
    record {
      dated = rw (d, select-append, a', a) refl;
      others = rw (d, select-append, b', b) (append-nil _);
      state = s;
    }

module _ (date : Bytes) (rows : List DailyProductRow) (now_utc : Bytes) (c : Connection) where
  -- Whatever the engine answers: either `ReplaceDate` returns true, no transaction was open before
  -- and none is open after it, and what is committed has the given rows as the sales of the date, in
  -- order, the old sales of all other dates and the old sync state; or it returns false and what is
  -- committed is as it was.
  pub replace_date-atomic :
      (((replace_date date rows now_utc c).0 ≡ true)
        × (c.saved ≡ none)
        × ((replace_date date rows now_utc c).1.saved ≡ none)
        × IsReplaced date rows (committed c) (committed (replace_date date rows now_utc c).1))
      ⊎ (((replace_date date rows now_utc c).0 ≡ false)
          × (committed (replace_date date rows now_utc c).1 ≡ committed c))
  unfolding replace_date
  replace_date-atomic =
      let p = when_open-Atomic (transaction-Atomic (replace_body-Performs date rows now_utc)) in
      elim (Bool-cases (replace_date date rows now_utc c).0) [
        | inl h ↦
            let (s, s', e) = p.works c h in
            inl (h, s, s', replace_change-IsReplaced date now_utc rows _ _ e)
        | inr h ↦ inr (h, p.fails c h)
      ]

has_product-upsert :
    (a : Int64) (p : Product) (products : List Product)
    → has_product a (upsert p products) ≡ (p.app_id == a || has_product a products)
unfolding has_product upsert
has_product-upsert a p [] = ground arith
has_product-upsert a p (q ∷ products) = ground (arith, has_product-upsert a p products)

has_sale-append :
    (date : Bytes) (a : Int64) (sales : List DailyProductSale) (s : DailyProductSale)
    → has_sale date a (sales ++ s ∷ []) ≡ true
    → (has_sale date a sales ≡ true) ⊎ (s.app_id ≡ a)
unfolding has_sale
has_sale-append date a [] s h = inr (ground arith)
has_sale-append date a (x ∷ sales) s h = ground (arith, has_sale-append date a sales s)

has_sale-delete :
    (date : Bytes) (a : Int64) (sales : List DailyProductSale)
    → has_sale date a (select (λ s. not (bytes_eq s.financial_date date)) sales) ≡ false
unfolding has_sale
has_sale-delete date a [] = refl
has_sale-delete date a (s ∷ sales) = ground (arith, has_sale-delete date a sales)

-- No row's app has a sale on the date yet.
record IsFree (date : Bytes) (rows : List DailyProductRow) (t : Tables) : Type 0 where
  at : (a : Int64) → has_app a rows ≡ true → has_sale date a t.daily_product_sales ≡ false

row_change-total :
    (date now_utc : Bytes) (row : DailyProductRow) (t : Tables)
    → has_sale date row.app_id t.daily_product_sales ≡ false
    → (t' : Tables) × (row_change date now_utc row t ≡ some t')
      × (t'.daily_product_sales ≡ t.daily_product_sales ++ sale_of date row ∷ [])
unfolding row_change then_change upsert_product insert_daily product_of sale_of
row_change-total date now_utc row t free =
    let t' : Tables = record t {
      products = upsert (product_of row now_utc) t.products;
      daily_product_sales = t.daily_product_sales ++ sale_of date row ∷ [];
    } in
    (t', rw (has_product-upsert, ==_refl, free) refl, refl)

IsFree-step :
    (date : Bytes) (row : DailyProductRow) (rows : List DailyProductRow) (t u : Tables)
    → Distinct (row ∷ rows)
    → IsFree date (row ∷ rows) t
    → u.daily_product_sales ≡ t.daily_product_sales ++ sale_of date row ∷ []
    → (a : Int64) → has_app a rows ≡ true
    → has_sale date a u.daily_product_sales ≡ false
unfolding sale_of
IsFree-step date row rows t u d v e a h =
    elim (Bool-cases (has_sale date a u.daily_product_sales)) [
      | inr free ↦ free
      | inl used ↦
          elim (has_sale-append date a t.daily_product_sales (sale_of date row) (rw e at used)) [
            | inl old ↦ ground (arith, v.at a)
            | inr same ↦ absurd (ground (arith, ap (λ b. has_app b rows) same))
          ]
    ]

rows_change-total :
    (date now_utc : Bytes) (rows : List DailyProductRow) (t : Tables)
    → Distinct rows
    → IsFree date rows t
    → (t' : Tables) × (rows_change date now_utc rows t ≡ some t')
unfolding rows_change
rows_change-total date now_utc [] t d v = (t, refl)
rows_change-total date now_utc (row ∷ rows) t d v =
    let (u, e, s) = row_change-total date now_utc row t (v.at row.app_id (ground arith)) in
    let (t', h) =
      rows_change-total date now_utc rows u d.1
        (record { at = IsFree-step date row rows t u d v s }) in
    (t', then_change-step (row_change date now_utc row) (rows_change date now_utc rows) e ∙ h)

pub replace_date-achieves :
    (date : Bytes) (rows : List DailyProductRow) (now_utc : Bytes) (c : Connection)
    → IsSound c
    → c.saved ≡ none
    → Distinct rows
    → ((replace_date date rows now_utc c).0 ≡ true)
      × IsSound (replace_date date rows now_utc c).1
      × ((replace_date date rows now_utc c).1.saved ≡ none)
unfolding replace_date replace_change then_change delete_date
replace_date-achieves date rows now_utc c v s d =
    let (t, e) =
      rows_change-total date now_utc rows _ d
        (record { at = λ a h. has_sale-delete date a c.tables.daily_product_sales }) in
    let (worked, sound, tables, saved) =
      transaction-achieves (replace_body-Achieves date rows now_utc) c v s t e in
    rw (when_open_sound _ c v) (worked, sound, saved)

-- On an open connection whose engine works, with no transaction open, `ReplaceDate` returns true for
-- rows of different apps, whatever is stored.
pub replace_date-succeeds :
    (date : Bytes) (rows : List DailyProductRow) (now_utc : Bytes) (c : Connection)
    → IsSound c
    → c.saved ≡ none
    → Distinct rows
    → (replace_date date rows now_utc c).0 ≡ true
replace_date-succeeds date rows now_utc c v s d =
    (replace_date-achieves date rows now_utc c v s d).0
