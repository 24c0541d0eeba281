-- ===== src/Sync/Cache.antt =====
-- What the cache promises the windows: a cache is, for each financial date, the sales of the date,
-- whatever table they stand in. Two things happen to it: all of it goes, or one date is replaced by
-- the aggregation of an answer of Steam about that date.
use steam_sales_tray.Shared.{◌≡◌, true, false, List, [], map, select}
use steam_sales_tray.Shared.Bytes.{Bytes, bytes_eq}
use steam_sales_tray.Steam.Client.{is_ok}
use steam_sales_tray.Storage.Connection.{Connection, DailyProductSale}
use steam_sales_tray.Storage.Database.{sale_of}
use steam_sales_tray.Storage.Migrations.Sales.{committed_sales}
use steam_sales_tray.Sync.Aggregator.{aggregate_date}
use steam_sales_tray.Sync.Service.Monad.{SteamApi}

abbrev pub Cache : Type 0
Cache = Bytes → List DailyProductSale

abbrev pub cache_of : Connection → Cache
cache_of c date = select (λ s. bytes_eq s.financial_date date) (committed_sales c)

module _ (api : SteamApi) where
  pub data CacheStep (before after : Cache) : Type 0 where
    unchanged : ((e : Bytes) → after e ≡ before e) → CacheStep before after
    emptied : ((e : Bytes) → after e ≡ []) → CacheStep before after
    replaced :
        (key date : Bytes) (net : api.Net)
        → is_ok (api.get_all_sales_for_date key date net).0 ≡ true
        → after date
          ≡ map (sale_of date) (aggregate_date (api.get_all_sales_for_date key date net).1)
        → ((e : Bytes) → bytes_eq e date ≡ false → after e ≡ before e)
        → CacheStep before after

  -- the steps from one cache to another, oldest first
  pub data Evolves (before : Cache) : Cache → Type 0 where
    start : Evolves before before
    next : {now after : Cache} → Evolves before now → CacheStep now after → Evolves before after

  pub Evolves-trans : {a b c : Cache} → Evolves a b → Evolves b c → Evolves a c
  Evolves-trans p start = p
  Evolves-trans p (next q s) = next (Evolves-trans p q) s
