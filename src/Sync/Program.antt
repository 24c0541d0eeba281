-- ===== src/Sync/Program.antt =====
-- A pass with the Steam client that the worker has in the program: what the cache holds of a date is
-- what the pages of the server say.
use steam_sales_tray.Shared.{
  ℕ, ◌+◌, ◌%◌, ◌≡◌, refl, ◌∙◌, ap, ◌⊎◌, inl, inr, true, List, [], ◌∷◌, map, ◌==◌, if◌then◌else◌,
  arith,
}
use steam_sales_tray.Shared.Bytes.{Bytes, codes}
use steam_sales_tray.Shared.Word.{Int64, word_mod}
use steam_sales_tray.Steam.Models.{DetailedSalesPage}
use steam_sales_tray.Steam.Json.{Yyjson}
use steam_sales_tray.Steam.Client.{
  Transport, is_ok, get_changed_dates, max_pages_per_date, get_all_detailed_sales_for_date,
}
use steam_sales_tray.Steam.Client.Pages.{records_of, IsTrace, all_pages}
use steam_sales_tray.Storage.Models.{DailyProductRow}
use steam_sales_tray.Storage.Connection.{DailyProductSale}
use steam_sales_tray.Storage.Database.{
  sale_of, get_backfill_cursor, get_changed_dates_highwatermark, set_last_successful_check_utc,
}
use steam_sales_tray.Sync.Aggregator.{aggregate_date}
use steam_sales_tray.Sync.Aggregator.Totals.{
  Column, net, gross, returned, row_column, counted_sum, row_sum, row_sum-aggregate_date,
}
use steam_sales_tray.Sync.Service.Monad.{SteamApi, Env, World, idle}
use steam_sales_tray.Sync.Service.Sales.{contains, IsAnswered}
use steam_sales_tray.Sync.Service.Sales.Round.{sales_at}
use steam_sales_tray.Sync.Service.Complete.{synchronize-IsStored}
use steam_sales_tray.Sync.Service.{is_initial, already_synced, synchronize}

abbrev pub sale_column : Column → DailyProductSale → Int64
sale_column net s = s.net_units_sold
sale_column gross s = s.gross_units_sold
sale_column returned s = s.gross_units_returned

-- The sum of a column over the sales of an app, with no wrap-around.
abbrev pub sale_sum : Column → Int64 → List DailyProductSale → ℕ
sale_sum c a [] = 0
sale_sum c a (s ∷ sales) = (if s.app_id == a then sale_column c s else 0) + sale_sum c a sales

sale_column-sale_of :
    (c : Column) (date : Bytes) (row : DailyProductRow)
    → sale_column c (sale_of date row) ≡ row_column c row
unfolding sale_of
sale_column-sale_of net date row = refl
sale_column-sale_of gross date row = refl
sale_column-sale_of returned date row = refl

sale_sum-map :
    (c : Column) (a : Int64) (date : Bytes) (rows : List DailyProductRow)
    → sale_sum c a (map (sale_of date) rows) ≡ row_sum c a rows
unfolding row_sum sale_of
sale_sum-map c a date [] = refl
sale_sum-map c a date (row ∷ rows) =
    ground (arith, sale_sum-map c a date rows, sale_column-sale_of c date row)

module _ (y : Yyjson) (t : Transport) where
  -- `client` of Run, as the worker uses it
  abbrev pub steam_client : SteamApi
  steam_client = record {
    Net = t.Net;
    get_changed_dates = get_changed_dates y t;
    get_all_sales_for_date = get_all_detailed_sales_for_date y t;
  }

  module _ (env : Env) where
    -- The committed units of each app on the date are the sums over the records of the pages along
    -- the cursor, each of them answered with success, modulo 2 ^ 64.
    abbrev pub IsDelivered : Bytes → Bytes → World steam_client env → Type 0
    IsDelivered key date w =
        (before : t.Net) × (end : t.Net) × (pages : List DetailedSalesPage) × IsTrace y t key date
          max_pages_per_date (codes "0") before pages end
        × ((c : Column) (a : Int64)
            → sale_sum c a (sales_at steam_client env date w) % word_mod
              ≡ counted_sum c a (records_of pages) % word_mod)

    IsAnswered-IsDelivered :
        (key date : Bytes) (w : World steam_client env)
        → IsAnswered steam_client env key date w
        → IsDelivered key date w
    IsAnswered-IsDelivered key date w (before, ok, stored) =
        let (pages, trace, same) = all_pages y t key date before ok in
        let records = (get_all_detailed_sales_for_date y t key date before).1 in
        (
          before,
          (get_all_detailed_sales_for_date y t key date before).2,
          pages,
          trace,
          λ c a.
              ap (λ sales. sale_sum c a sales % word_mod) stored
              ∙ ap (λ n. n % word_mod) (sale_sum-map c a date (aggregate_date records))
              ∙ row_sum-aggregate_date c a records
              ∙ ap (λ rs. counted_sum c a rs % word_mod) same,
        )

    -- If a pass, from the reading of the high-water mark on, ends with the status Idle, then
    -- GetChangedDates succeeded for that mark, and of every date that it named, unless the
    -- synchronisation is an initial one that is resumed and the date is not after its backfill
    -- cursor, the committed net, gross and returned units of each app are, modulo 2 ^ 64, the sums
    -- over the records that count on the pages of GetDetailedSales along the cursor from "0", up to
    -- the last page or the limit of 10,000.
    pub synchronize-IsDelivered :
        (key : Bytes) (w : World steam_client env)
        → let (hwm, c) = get_changed_dates_highwatermark w.db in
          let (r, changed, session) = get_changed_dates y t key hwm w.net in
          let cursor = (get_backfill_cursor (set_last_successful_check_utc env.utc_now c).1).0 in
          let after = (synchronize steam_client env key w).1 in
          after.status.status ≡ idle
          → (is_ok r ≡ true)
            × ((e : Bytes)
                → contains e changed.dates ≡ true
                → (already_synced (is_initial hwm) cursor e ≡ true) ⊎ IsDelivered key e after)
    synchronize-IsDelivered key w = λ done.
        let (ok, stored) = synchronize-IsStored steam_client env key w done in
        let after = (synchronize steam_client env key w).1 in
        (
          ok,
          λ e listed. elim (stored e listed) [
            | inl skipped ↦ inl skipped
            | inr answered ↦ inr (IsAnswered-IsDelivered key e after answered)
          ],
        )
