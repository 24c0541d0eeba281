-- ===== src/Storage/Database/Replace/Changes.antt =====
-- The changes that the statements of `ReplaceDate` make, and what they add to the tables.
use steam_sales_tray.Shared.{
  ◌≡◌, refl, sym, ap, ◌∙◌, Bool, not, some, List, [], ◌∷◌, ◌++◌, map, select, arith,
}
use mathlib.Core.List.{append-nil, append_assoc}
use steam_sales_tray.Shared.Bytes.{Bytes, bytes_eq, bytes_eq_iff}
use steam_sales_tray.Storage.Models.{DailyProductRow}
use steam_sales_tray.Storage.Connection.{Tables, committed, Change}
use steam_sales_tray.Storage.Connection.Atomic.{
  Performs, then_change, then_change-eq-some, prepare-Performs, statement-Performs, ⊳-Performs,
}
use steam_sales_tray.Storage.Connection.FaultFree.{
  Achieves, prepare-Achieves, statement-Achieves, ⊳-Achieves,
}
use steam_sales_tray.Storage.Database.{
  delete_date, upsert_product, insert_daily, product_of, sale_of, store_row, store_rows,
  replace_body,
}

unfoldable pub row_change : Bytes → Bytes → DailyProductRow → Change
row_change date now_utc row =
    then_change (upsert_product (product_of row now_utc)) (insert_daily (sale_of date row))

unfoldable pub rows_change : Bytes → Bytes → List DailyProductRow → Change
rows_change date now_utc [] = some
rows_change date now_utc (row ∷ rows) =
    then_change (row_change date now_utc row) (rows_change date now_utc rows)

unfoldable pub replace_change : Bytes → List DailyProductRow → Bytes → Change
replace_change date rows now_utc = then_change some (
    then_change (delete_date date)
      (then_change some (then_change some (rows_change date now_utc rows))))

store_rows-Performs :
    (date now_utc : Bytes) (rows : List DailyProductRow)
    → Performs (rows_change date now_utc rows) (store_rows date now_utc rows)
unfolding store_rows rows_change store_row row_change
store_rows-Performs date now_utc [] = record {
  stays = λ c t s h. s;
  keeps = λ c t s. unfold committed in ground arith;
  effect = λ c h. refl;
}
store_rows-Performs date now_utc (row ∷ rows) =
    ⊳-Performs (⊳-Performs (statement-Performs _) (statement-Performs _))
      (store_rows-Performs date now_utc rows)

pub replace_body-Performs :
    (date : Bytes) (rows : List DailyProductRow) (now_utc : Bytes)
    → Performs (replace_change date rows now_utc) (replace_body date rows now_utc)
unfolding replace_body replace_change
replace_body-Performs date rows now_utc = ⊳-Performs prepare-Performs (
    ⊳-Performs (statement-Performs _) (
      ⊳-Performs prepare-Performs
        (⊳-Performs prepare-Performs (store_rows-Performs date now_utc rows))))

store_rows-Achieves :
    (date now_utc : Bytes) (rows : List DailyProductRow)
    → Achieves (rows_change date now_utc rows) (store_rows date now_utc rows)
unfolding store_rows rows_change store_row row_change
store_rows-Achieves date now_utc [] = record {
  sound = λ c v. v;
  stays = λ c t v s. s;
  achieves = λ c t v h. (refl, ground arith);
}
store_rows-Achieves date now_utc (row ∷ rows) =
    ⊳-Achieves (⊳-Achieves (statement-Achieves _) (statement-Achieves _))
      (store_rows-Achieves date now_utc rows)

pub replace_body-Achieves :
    (date : Bytes) (rows : List DailyProductRow) (now_utc : Bytes)
    → Achieves (replace_change date rows now_utc) (replace_body date rows now_utc)
unfolding replace_body replace_change
replace_body-Achieves date rows now_utc = ⊳-Achieves prepare-Achieves (
    ⊳-Achieves (statement-Achieves _) (
      ⊳-Achieves prepare-Achieves
        (⊳-Achieves prepare-Achieves (store_rows-Achieves date now_utc rows))))

-- What the rows add to the tables.
row_change-effect :
    (date now_utc : Bytes) (row : DailyProductRow) (t t' : Tables)
    → row_change date now_utc row t ≡ some t'
    → (t'.daily_product_sales ≡ t.daily_product_sales ++ sale_of date row ∷ [])
      × (t'.sync_state ≡ t.sync_state)
unfolding row_change then_change upsert_product insert_daily
row_change-effect date now_utc row t t' h = (ground arith, ground arith)

pub rows_change-effect :
    (date now_utc : Bytes) (rows : List DailyProductRow) (t t' : Tables)
    → rows_change date now_utc rows t ≡ some t'
    → (t'.daily_product_sales ≡ t.daily_product_sales ++ map (sale_of date) rows)
      × (t'.sync_state ≡ t.sync_state)
unfolding rows_change then_change
rows_change-effect date now_utc [] t t' h =
    let e : t ≡ t' = cc in
    (
      rw append-nil (ap (λ (u : Tables). u.daily_product_sales) (sym e)),
      ap (λ (u : Tables). u.sync_state) (sym e),
    )
rows_change-effect date now_utc (row ∷ rows) t t' h =
    let (u, e, h') =
      then_change-eq-some (row_change date now_utc row) (rows_change date now_utc rows) t t' h in
    let (d, s) = row_change-effect date now_utc row t u e in
    let (d', s') = rows_change-effect date now_utc rows u t' h' in
    (
      d'
          ∙ ap (λ x. x ++ map (sale_of date) rows) d
          ∙ append_assoc t.daily_product_sales (sale_of date row ∷ []) (map (sale_of date) rows),
      s' ∙ s,
    )

pub select-map-same :
    (date : Bytes) (rows : List DailyProductRow)
    → (select (λ s. bytes_eq s.financial_date date) (map (sale_of date) rows)
        ≡ map (sale_of date) rows)
      × (select (λ s. not (bytes_eq s.financial_date date)) (map (sale_of date) rows) ≡ [])
unfolding sale_of
select-map-same date [] = (refl, refl)
select-map-same date (row ∷ rows) =
    let (a, b) = select-map-same date rows in
    let e = (bytes_eq_iff date date).1 refl in rw (e, a, b) (refl, refl)

pub select-select-not :
    {A : Type 0} (p : A → Bool) (xs : List A)
    → (select p (select (λ x. not (p x)) xs) ≡ [])
      × (select (λ x. not (p x)) (select (λ x. not (p x)) xs) ≡ select (λ x. not (p x)) xs)
select-select-not p [] = (refl, refl)
select-select-not p (x ∷ xs) = let (a, b) = select-select-not p xs in (ground arith, ground arith)
