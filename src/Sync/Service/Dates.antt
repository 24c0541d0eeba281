-- ===== src/Sync/Service/Dates.antt =====
-- The loop of `RunSynchronization` over the dates: a request for each, and the storing of its answer.
use steam_sales_tray.Shared.{◌+◌, Bool, true, false, List, [], ◌∷◌, ◌++◌, if◌then◌else◌}
use steam_sales_tray.Shared.Bytes.{Bytes, Wide, codes}
use steam_sales_tray.Shared.Decimal.{to_string}
use steam_sales_tray.Steam.Models.{DetailedSalesRecord}
use steam_sales_tray.Steam.Client.{
  ResultKind, offline, auth, rate_limited, server_error, parse, FinancialResult, is_ok,
}
use steam_sales_tray.Storage.Database.{set_last_error, set_backfill_cursor, replace_date}
use steam_sales_tray.Sync.Aggregator.{aggregate_date}
use steam_sales_tray.Sync.Service.Monad.{
  SyncStatus, authentication_failed, api_error, parse_error, database_error, sync_progress,
  sync_failed, info, warn, error, SteamApi, Env, M, pure, ◌>>=◌, ◌>>◌, post, set_status, on_status,
  on_db, log,
}

unfoldable pub status_from_kind : ResultKind → SyncStatus
status_from_kind offline = SyncStatus.offline
status_from_kind rate_limited = SyncStatus.offline
status_from_kind server_error = SyncStatus.offline
status_from_kind auth = authentication_failed
status_from_kind parse = parse_error
status_from_kind _ = api_error

module _ (api : SteamApi) (env : Env) where
  abbrev Pass : Type 0 → Type 0
  Pass = M api env

  -- a request that failed
  unfoldable pub fail_request : Wide → FinancialResult → Pass (Unit {0})
  fail_request name r = do
    set_status api env (status_from_kind r.kind) r.message
    on_db api env (set_last_error (env.wide_to_utf8 r.message))
    log api env warn (name ++ (codes " failed, httpStatus=" ++ to_string r.http_status))
    post api env sync_failed

  unfoldable pub request_sales : Bytes → Bytes → Pass (FinancialResult × List DetailedSalesRecord)
  request_sales key date w =
      let (r, records, net) = api.get_all_sales_for_date key date w.net in
      ((r, records), record w { net = net })

  -- the backfill cursor of an initial synchronisation
  unfoldable pub checkpoint : Bool → Bytes → Pass (Unit {0})
  checkpoint initial date =
      if initial
      then (do on_db api env (set_backfill_cursor date); pure api env tt)
      else pure api env tt

  -- what follows ReplaceDate, by its result
  unfoldable pub after_store : Bytes → Bool → Bool → Pass Bool
  after_store date initial true = do
    checkpoint initial date
    log api env info (codes "Replaced financial date " ++ env.utf8_to_wide date)
    on_status api env (λ s. record s { completed_dates = s.completed_dates + 1 })
    post api env sync_progress
    pure api env true
  after_store date initial false = do
    set_status api env database_error (codes "Failed to save sales data.")
    on_db api env (set_last_error (codes "database write failed"))
    log api env error (codes "Database write failed for a date")
    post api env sync_failed
    pure api env false

  unfoldable pub store_date : Bytes → Bytes → Bool → List DetailedSalesRecord → Pass Bool
  store_date date now initial records = do
    stored ← on_db api env (replace_date date (aggregate_date records) now)
    after_store date initial stored

  -- one round of the loop over the dates; false where it returns
  unfoldable pub process_date : Bytes → Bytes → Bool → Bytes → Pass Bool
  process_date key now initial date = do
    (r, records) ← request_sales key date
    if is_ok r
        then store_date date now initial records
        else (do fail_request (codes "GetDetailedSales") r; pure api env false)

  unfoldable pub process_dates : Bytes → Bytes → Bool → List Bytes → Pass Bool
  process_dates key now initial [] = pure api env true
  process_dates key now initial (date ∷ dates) =
      let rest = process_dates key now initial dates in
      do done ← process_date key now initial date; if done then rest else pure api env false
