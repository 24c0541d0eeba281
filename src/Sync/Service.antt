-- ===== src/Sync/Service.antt =====
-- sync/SalesSyncService.cpp: `RunSynchronization`, one pass of the worker. A `World` holds what the
-- pass changes. The pass has to itself the connection and the client; the parameters in `Env` are
-- what it reads of other parts and of the system.
pub mod Monad
pub mod Dates
pub mod Settled
pub mod Mark
pub mod Sales
pub mod Success
pub mod Takes
pub mod Evolution
pub mod Complete
pub mod Clearing
use steam_sales_tray.Shared.{
  ℕ, ◌+◌, ◌-◌, Bool, true, false, not, ◌&&◌, ◌||◌, Option, none, some, List, [], ◌∷◌, ◌++◌, length,
  is_empty, select, ltb, if◌then◌else◌,
}
use steam_sales_tray.Shared.Bytes.{Bytes, Wide, codes, bytes_eq, bytes_leb}
use steam_sales_tray.Shared.Decimal.{to_string}
use steam_sales_tray.Shared.Word.{Int64}
use steam_sales_tray.Steam.Models.{ChangedDates, DetailedSalesRecord}
use steam_sales_tray.Steam.Client.{
  ResultKind, success, offline, auth, rate_limited, server_error, too_large, parse, other,
  FinancialResult, is_ok,
}
use steam_sales_tray.Storage.Models.{ProductUnits}
use steam_sales_tray.Storage.Connection.{Connection, Op}
use steam_sales_tray.Storage.Database.{
  zero_mark, get_changed_dates_highwatermark, set_changed_dates_highwatermark,
  set_last_successful_check_utc, set_last_successful_sync_utc, set_last_error, get_backfill_cursor,
  set_backfill_cursor, replace_date, clear_all_sales,
}
use steam_sales_tray.Storage.Migrations.{open_database}
use steam_sales_tray.Storage.Queries.{query_lifetime, sum_for_date}
use steam_sales_tray.Sync.Aggregator.{aggregate_date}
use steam_sales_tray.Sync.Notification.{build_notification}
use Monad.{
  SyncStatus, missing_api_key, idle, syncing, authentication_failed, api_error, parse_error,
  database_error, Message, sync_started, sync_progress, sync_completed, sync_failed, totals_changed,
  LogLevel, info, warn, error, LogEntry, AppStatus, SteamApi, SecretStore, Env, World, M, pure,
  ◌>>=◌, ◌>>◌, post, set_status, on_status, on_db, log,
}
use Dates.{fail_request, checkpoint, process_dates}

-- `hwm == "0" || hwm.empty()`
unfoldable pub is_initial : Bytes → Bool
is_initial hwm = bytes_eq hwm zero_mark || is_empty hwm

-- std::sort on strings
unfoldable pub insert_date : Bytes → List Bytes → List Bytes
insert_date d [] = d ∷ []
insert_date d (e ∷ dates) = if bytes_leb d e then d ∷ e ∷ dates else e ∷ insert_date d dates

unfoldable pub sort_dates : List Bytes → List Bytes
unfolding insert_date
sort_dates [] = []
sort_dates (d ∷ dates) = insert_date d (sort_dates dates)

unfoldable pub already_synced : Bool → Bytes → Bytes → Bool
already_synced initial cursor d = initial && not (is_empty cursor) && bytes_leb d cursor

-- the dates that are left to process
unfoldable pub dates_left : Bool → Bytes → List Bytes → List Bytes
unfolding already_synced
dates_left initial cursor dates = select (λ d. not (already_synced initial cursor d)) dates

-- store.HasStoredKey(), store.Load(key), key.Empty()
unfoldable pub usable_key : SecretStore → Option Bytes
usable_key s =
    if s.has_stored_key
    then elim s.load [ none ↦ none | some key ↦ if is_empty key then none else some key ]
    else none

-- `!db.IsOpen() && !db.Open(...)`, negated
unfoldable pub ensure_open : Op
ensure_open c = if c.is_open then (true, c) else open_database c

module _ (api : SteamApi) (env : Env) where
  abbrev Pass : Type 0 → Type 0
  Pass = M api env

  unfoldable pub fail_pass : SyncStatus → Wide → Pass (Unit {0})
  fail_pass status message = do set_status api env status message; post api env sync_failed

  unfoldable pub take_clear_request : Pass Bool
  take_clear_request w = (w.clear_cache_requested, record w { clear_cache_requested = false })

  unfoldable pub clear_if_requested : Pass (Unit {0})
  clear_if_requested = do
    requested ← take_clear_request
    if requested then (do on_db api env clear_all_sales; pure api env tt) else pure api env tt

  unfoldable pub request_changed_dates : Bytes → Bytes → Pass (FinancialResult × ChangedDates)
  request_changed_dates key hwm w =
      let (r, changed, net) = api.get_changed_dates key hwm w.net in
      ((r, changed), record w { net = net })

  unfoldable pub advance_mark : Bytes → Pass (Unit {0})
  advance_mark mark =
      if is_empty mark
      then pure api env tt
      else (do on_db api env (set_changed_dates_highwatermark mark); pure api env tt)

  -- nothing changed: the mark is advanced, and the pass is done
  unfoldable pub finish_unchanged : ChangedDates → Pass (Unit {0})
  finish_unchanged changed = do
    advance_mark changed.result_highwatermark
    on_db api env (set_last_error [])
    on_status api env
        λ s. record s { status = idle; message = []; total_dates = 0; completed_dates = 0 }
    post api env sync_completed

  unfoldable pub snapshot : Bool → Pass (List ProductUnits)
  snapshot wanted =
      if wanted
      then (do
        rows ← on_db api env (query_lifetime env.utf8_to_wide)
        pure api env (env.hash_order rows))
      else pure api env []

  unfoldable pub notification_text : Bool → List ProductUnits → Pass Wide
  notification_text wanted before =
      if wanted
      then (do
        after ← snapshot true
        today ← on_db api env (sum_for_date env.steam_today)
        pure api env (build_notification before after today))
      else pure api env []

  unfoldable pub announce : Wide → Pass (Unit {0})
  announce notification = do
    on_status api env λ s. record s {
      status = idle;
      message = [];
      last_success = env.system_clock;
      notification = notification;
    }
    log api env info (codes "Sync completed successfully")
    post api env totals_changed
    post api env sync_completed

  -- every date is stored
  unfoldable pub finish_changed : ChangedDates → Bytes → Bool → List ProductUnits → Pass (Unit {0})
  finish_changed changed now initial before = do
    advance_mark changed.result_highwatermark
    checkpoint api env initial []
    on_db api env (set_last_successful_sync_utc now)
    on_db api env (set_last_error [])
    notification ← notification_text (env.notify_enabled && not initial) before
    announce notification

  unfoldable pub log_resumed : Bool → ℕ → ℕ → Pass (Unit {0})
  log_resumed initial all left =
      if initial && ltb left all
      then log api env info (
          codes "Resuming backfill; skipping "
          ++ (to_string (all - left) ++ codes " already-synced dates"))
      else pure api env tt

  -- what follows the reading of the cursor
  unfoldable pub process_left : Bytes → Bytes → Bool → ChangedDates → Bytes → Pass (Unit {0})
  process_left key now initial changed cursor = do
    let dates = sort_dates changed.dates
    let to_process = dates_left initial cursor dates
    log_resumed initial (length dates) (length to_process)
    on_status api env λ s. record s { total_dates = length to_process; completed_dates = 0 }
    post api env sync_progress
    before ← snapshot (env.notify_enabled && not initial)
    done ← process_dates api env key now initial to_process
    if done then finish_changed changed now initial before else pure api env tt

  unfoldable pub process_changed : Bytes → Bytes → Bool → ChangedDates → Pass (Unit {0})
  unfolding process_left
  process_changed key now initial changed = do
    cursor ← if initial then on_db api env get_backfill_cursor else pure api env []
    process_left key now initial changed cursor

  unfoldable pub process_answer : Bytes → Bool → ChangedDates → Pass (Unit {0})
  process_answer key initial changed = do
    log api env info (codes "ChangedDates completed, dates=" ++ to_string (length changed.dates))
    on_db api env (set_last_successful_check_utc env.utc_now)
    if is_empty changed.dates
        then finish_unchanged changed
        else process_changed key env.utc_now initial changed

  unfoldable pub synchronize : Bytes → Pass (Unit {0})
  synchronize key = do
    hwm ← on_db api env get_changed_dates_highwatermark
    (r, changed) ← request_changed_dates key hwm
    if is_ok r
        then process_answer key (is_initial hwm) changed
        else fail_request api env (codes "GetChangedDates") r

  unfoldable pub with_key : Option Bytes → Pass (Unit {0})
  with_key none = fail_pass missing_api_key (codes "No API key configured.")
  with_key (some key) = synchronize key

  unfoldable pub run_synchronization : Pass (Unit {0})
  run_synchronization = do
    post api env sync_started
    set_status api env syncing (codes "Updating…")
    opened ← on_db api env ensure_open
    if opened
        then (do clear_if_requested; with_key (usable_key env.secret))
        else fail_pass database_error (codes "Could not open the local cache.")
