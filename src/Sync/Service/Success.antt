-- ===== src/Sync/Service/Success.antt =====
-- A pass whose database and server work does store every date.
use steam_sales_tray.Shared.{◌≡◌, refl, Bool, true, false, none, List, [], ◌∷◌, arith}
use steam_sales_tray.Shared.Bytes.{Bytes}
use steam_sales_tray.Steam.Models.{DetailedSalesRecord}
use steam_sales_tray.Steam.Client.{is_ok}
use steam_sales_tray.Storage.Connection.{Connection, prepare, statement, ◌⊳◌}
use steam_sales_tray.Storage.Connection.FaultFree.{IsSound}
use steam_sales_tray.Storage.Database.{
  set_sync_state_column, set_backfill_cursor, clear_backfill_cursor, replace_date,
}
use steam_sales_tray.Storage.Database.Replace.{replace_date-achieves}
use steam_sales_tray.Sync.Aggregator.{aggregate_date}
use steam_sales_tray.Sync.Aggregator.Totals.{aggregate_date-Distinct}
use steam_sales_tray.Sync.Service.Monad.{
  SteamApi, Env, World, ◌>>=◌, ◌>>◌, on_status, post, log, on_db, pure,
}
use steam_sales_tray.Sync.Service.Dates.{
  request_sales, checkpoint, after_store, store_date, process_date, process_dates,
}

-- An engine that works, and no open transaction.
pub record IsReady (c : Connection) : Type 0 where
  pub sound : IsSound c
  pub idle : c.saved ≡ none

set_backfill_cursor-IsReady :
    (date : Bytes) (c : Connection) → IsReady c → IsReady (set_backfill_cursor date c).1
unfolding set_backfill_cursor clear_backfill_cursor set_sync_state_column ◌⊳◌ prepare statement
set_backfill_cursor-IsReady date c ready = record {
  sound = record { opened = ground (arith); answers = ground (arith) };
  idle = ground (arith);
}

module _ (api : SteamApi) (env : Env) where
  after_store-IsReady :
      (date : Bytes) (initial : Bool) (w : World api env)
      → IsReady w.db
      → ((after_store api env date initial true w).0 ≡ true)
        × IsReady (after_store api env date initial true w).1.db
  unfolding after_store checkpoint on_status post log on_db pure ◌>>◌
  after_store-IsReady date true w ready = (refl, set_backfill_cursor-IsReady date w.db ready)
  after_store-IsReady date false w ready = (refl, ready)

  store_date-IsReady :
      (date now : Bytes) (initial : Bool) (records : List DetailedSalesRecord) (w : World api env)
      → IsReady w.db
      → ((store_date api env date now initial records w).0 ≡ true)
        × IsReady (store_date api env date now initial records w).1.db
  unfolding store_date on_db ◌>>=◌
  store_date-IsReady date now initial records w ready =
      let (worked, sound, idle) =
        replace_date-achieves date (aggregate_date records) now w.db ready.sound ready.idle
          (aggregate_date-Distinct records) in
      rw worked (
        after_store-IsReady date initial
          (record w { db = (replace_date date (aggregate_date records) now w.db).1 })
          (record { sound = sound; idle = idle }))

  module _ (key now : Bytes) (initial : Bool)
      (answers : (date : Bytes) (net : api.Net)
        → is_ok (api.get_all_sales_for_date key date net).0 ≡ true) where
    process_date-IsReady :
        (date : Bytes) (w : World api env)
        → IsReady w.db
        → ((process_date api env key now initial date w).0 ≡ true)
          × IsReady (process_date api env key now initial date w).1.db
    unfolding process_date request_sales ◌>>=◌
    process_date-IsReady date w ready =
        let (r, records, net) = api.get_all_sales_for_date key date w.net in
        rw (answers date w.net)
          (store_date-IsReady date now initial records (record w { net = net }) ready)

    -- If every request for a date is answered with success, the engine works and no transaction is
    -- open, then the loop over the dates ends without a failure, whatever is stored and whatever
    -- the answers are.
    pub process_dates-succeeds :
        (dates : List Bytes) (w : World api env)
        → IsReady w.db
        → (process_dates api env key now initial dates w).0 ≡ true
    unfolding process_dates ◌>>=◌ pure
    process_dates-succeeds [] w ready = refl
    process_dates-succeeds (date ∷ dates) w ready =
        let (done, after) = process_date-IsReady date w ready in
        let rest =
          process_dates-succeeds dates (process_date api env key now initial date w).1 after in
        rw done rest
