-- ===== src/Sync/Service/Sales/Round.antt =====
-- What one round of the loop over the dates leaves in the cache.
use steam_sales_tray.Shared.{
  ◌≡◌, refl, sym, ap, ◌∙◌, ◌⊎◌, inl, inr, Bool, true, false, not, List, [], ◌∷◌, map, select,
  if◌then◌else◌, Bool-cases, arith,
}
use steam_sales_tray.Shared.Bytes.{Bytes, Wide, bytes_eq, bytes_eq_iff}
use steam_sales_tray.Steam.Models.{DetailedSalesRecord}
use steam_sales_tray.Steam.Client.{FinancialResult, is_ok}
use steam_sales_tray.Storage.Connection.{Tables, DailyProductSale, committed}
use steam_sales_tray.Storage.Database.{sale_of, replace_date}
use steam_sales_tray.Storage.Database.Replace.{IsReplaced, replace_date-atomic}
use steam_sales_tray.Storage.Database.Views.{
  set_last_error-KeepsView, set_backfill_cursor-KeepsView,
}
use steam_sales_tray.Sync.Aggregator.{aggregate_date}
use steam_sales_tray.Sync.Service.Monad.{
  SteamApi, Env, World, ◌>>=◌, ◌>>◌, set_status, on_status, post, log, on_db, pure,
}
use steam_sales_tray.Sync.Service.Dates.{
  fail_request, request_sales, checkpoint, after_store, store_date, process_date,
}

abbrev pub sales_on : Bytes → Tables → List DailyProductSale
sales_on date t = select (λ s. bytes_eq s.financial_date date) t.daily_product_sales

-- The sales of one date are among those that are not of another.
select-other :
    (d e : Bytes) (sales : List DailyProductSale)
    → bytes_eq e d ≡ false
    → select
        (λ s. bytes_eq s.financial_date e)
        (select (λ s. not (bytes_eq s.financial_date d)) sales)
      ≡ select (λ s. bytes_eq s.financial_date e) sales
select-other d e [] apart = refl
select-other d e (s ∷ sales) apart = elim (Bool-cases (bytes_eq s.financial_date e)) [
  | inl same ↦
      let named = ap (λ date. bytes_eq date d) ((bytes_eq_iff s.financial_date e).0 same) in
      ground (arith, select-other d e sales apart, named)
  | inr other ↦ ground (arith, select-other d e sales apart)
]

module _ (api : SteamApi) (env : Env) where
  abbrev pub sales_at : Bytes → World api env → List DailyProductSale
  sales_at date w = sales_on date (committed w.db)

  after_store-sales :
      (date : Bytes) (initial stored : Bool) (w : World api env)
      → ((after_store api env date initial stored w).0 ≡ stored)
        × ((committed (after_store api env date initial stored w).1.db).daily_product_sales
            ≡ (committed w.db).daily_product_sales)
  unfolding after_store checkpoint set_status on_status post log on_db pure ◌>>◌
  after_store-sales date true true w = (
    refl,
    (set_backfill_cursor-KeepsView (λ t. t.daily_product_sales) date (λ t s. refl)).at w.db,
  )
  after_store-sales date false true w = (refl, refl)
  after_store-sales date initial false w =
      (refl, (set_last_error-KeepsView (λ t. t.daily_product_sales) _ (λ t s. refl)).at w.db)

  fail_request-sales :
      (name : Wide) (r : FinancialResult) (w : World api env)
      → (committed (fail_request api env name r w).1.db).daily_product_sales
        ≡ (committed w.db).daily_product_sales
  unfolding fail_request set_status on_status post log on_db ◌>>◌
  fail_request-sales name r w =
      (set_last_error-KeepsView (λ t. t.daily_product_sales) _ (λ t s. refl)).at w.db

  -- One date was replaced by the records, or nothing was.
  abbrev pub IsRound :
      Bytes → List DetailedSalesRecord → World api env → Bool × World api env → Type 0
  IsRound date records w r =
      ((r.0 ≡ true)
        × (sales_at date r.1 ≡ map (sale_of date) (aggregate_date records))
        × ((e : Bytes) → bytes_eq e date ≡ false → sales_at e r.1 ≡ sales_at e w))
      ⊎ ((r.0 ≡ false) × ((e : Bytes) → sales_at e r.1 ≡ sales_at e w))

  sales_on-replaced :
      (date e : Bytes) (records : List DetailedSalesRecord) (t t' : Tables)
      → IsReplaced date (aggregate_date records) t t'
      → bytes_eq e date ≡ false
      → sales_on e t' ≡ sales_on e t
  sales_on-replaced date e records t t' replaced apart =
      sym (select-other date e t'.daily_product_sales apart)
      ∙ ap (λ sales. select (λ s. bytes_eq s.financial_date e) sales) replaced.others
      ∙ select-other date e t.daily_product_sales apart

  on :
      (e : Bytes) {a b : List DailyProductSale}
      → a ≡ b
      → select (λ s. bytes_eq s.financial_date e) a ≡ select (λ s. bytes_eq s.financial_date e) b
  on e h = ap (λ sales. select (λ s. bytes_eq s.financial_date e) sales) h

  store_date-IsRound :
      (date now : Bytes) (initial : Bool) (records : List DetailedSalesRecord) (w : World api env)
      → IsRound date records w (store_date api env date now initial records w)
  unfolding store_date ◌>>=◌ on_db
  store_date-IsRound date now initial records w =
      let step = replace_date date (aggregate_date records) now w.db in
      let w₁ = record w { db = step.1 } in
      let (same, kept) = after_store-sales date initial step.0 w₁ in
      elim (replace_date-atomic date (aggregate_date records) now w.db) [
        | inl (worked, before, after, replaced) ↦ inl (
          same ∙ worked,
          on date kept ∙ replaced.dated,
          λ e apart. on e kept ∙ sales_on-replaced date e records _ _ replaced apart,
        )
        | inr (failed, old) ↦
            inr (same ∙ failed, λ e. on e kept ∙ ap (λ (t : Tables). sales_on e t) old)
      ]

  abbrev pub IsUntouched : World api env → Bool × World api env → Type 0
  IsUntouched w r = (r.0 ≡ false) × ((e : Bytes) → sales_at e r.1 ≡ sales_at e w)

  refuse-IsUntouched :
      (name : Wide) (r : FinancialResult) (w : World api env)
      → IsUntouched w ((fail_request api env name r >> pure api env false) w)
  unfolding pure ◌>>◌
  refuse-IsUntouched name r w = (refl, λ e. on e (fail_request-sales name r w))

  answer-IsRound :
      (ok : Bool) (date now : Bytes) (initial : Bool) (name : Wide) (r : FinancialResult)
      → (records : List DetailedSalesRecord) (w : World api env)
      → let after =
          (if ok
              then store_date api env date now initial records
              else (fail_request api env name r >> pure api env false))
            w in
        ((ok ≡ true) × IsRound date records w after) ⊎ IsUntouched w after
  answer-IsRound true date now initial name r records w =
      inl (refl, store_date-IsRound date now initial records w)
  answer-IsRound false date now initial name r records w = inr (refuse-IsUntouched name r w)

  pub process_date-IsRound :
      (key now : Bytes) (initial : Bool) (date : Bytes) (w : World api env)
      → let after = process_date api env key now initial date w in
        let reply = api.get_all_sales_for_date key date w.net in
        ((is_ok reply.0 ≡ true) × IsRound date reply.1 w after) ⊎ IsUntouched w after
  unfolding process_date request_sales ◌>>=◌
  process_date-IsRound key now initial date w =
      let (r, records, net) = api.get_all_sales_for_date key date w.net in
      answer-IsRound (is_ok r) date now initial _ r records (record w { net = net })
