-- ===== src/Tests/Passing.antt =====
-- Tests of whole passes.
use steam_sales_tray.Shared.{ℕ, ◌≡◌, refl, Bool, true, false, []}
use steam_sales_tray.Shared.Bytes.{Bytes, codes, bytes_eq, bytes_leb}
use steam_sales_tray.Storage.Connection.{
  when_open, transaction, begin, commit, or_rollback, call, prepare, statement, ◌⊳◌,
}
use steam_sales_tray.Storage.Database.{
  zero_mark, replace_date, replace_body, store_rows, store_row, delete_date, upsert_product,
  insert_daily, has_product, has_sale, sale_of, product_of, upsert, read, or_zero_mark,
  get_changed_dates_highwatermark, set_changed_dates_highwatermark, get_backfill_cursor,
  set_sync_state_column, set_last_successful_check_utc, set_last_successful_sync_utc,
  set_last_error, clear_all_sales, clear_body, delete_sales, delete_products, reset_sync_state,
}
use steam_sales_tray.Steam.Client.{is_ok}
use steam_sales_tray.Sync.Aggregator.{
  aggregate_date, aggregate_from, add_record, is_skipped, add_found, find, change_at, add_to_row,
  new_row,
}
use steam_sales_tray.Sync.Cache.{cache_of}
use steam_sales_tray.Sync.Service.Monad.{
  State, World, idle, on_db, log, on_status, set_status, post, pure, ◌>>=◌, ◌>>◌,
}
use steam_sales_tray.Sync.Service.Dates.{
  request_sales, checkpoint, after_store, store_date, process_date, process_dates,
}
use steam_sales_tray.Sync.Service.{
  is_initial, insert_date, sort_dates, already_synced, dates_left, usable_key, ensure_open,
  request_changed_dates, advance_mark, snapshot, notification_text, announce, finish_changed,
  log_resumed, process_left, process_changed, process_answer, synchronize, with_key,
  run_synchronization,
}
use steam_sales_tray.Sync.Service.Complete.{IsStored, synchronize-IsStored}
use steam_sales_tray.Sync.Service.Clearing.{run_synchronization-clears}
use steam_sales_tray.Tests.Data.{client, surroundings, at_start}

pass-is_idle : (synchronize client surroundings (codes "KEY") (at_start [])).1.status.status ≡ idle
unfolding synchronize request_changed_dates process_answer process_changed process_left
    process_dates process_date request_sales store_date after_store checkpoint finish_changed
    advance_mark notification_text announce snapshot log_resumed sort_dates insert_date dates_left
    already_synced is_initial on_db log on_status set_status post pure ◌>>=◌ ◌>>◌ is_ok
    get_changed_dates_highwatermark set_changed_dates_highwatermark get_backfill_cursor
    set_sync_state_column set_last_successful_check_utc set_last_successful_sync_utc set_last_error
    read or_zero_mark replace_date replace_body when_open transaction begin commit or_rollback call
    prepare statement ◌⊳◌ store_rows store_row delete_date upsert_product insert_daily has_product
    has_sale sale_of product_of aggregate_date codes bytes_eq bytes_leb aggregate_from add_record
    is_skipped add_found find change_at upsert add_to_row new_row
pass-is_idle = refl

synchronize-IsStored_example :
    let (hwm, c) = get_changed_dates_highwatermark (at_start []).db in
    let (r, changed, net) = client.get_changed_dates (codes "KEY") hwm 0 in
    let cursor = (get_backfill_cursor (set_last_successful_check_utc surroundings.utc_now c).1).0 in
    (is_ok r ≡ true)
    × IsStored client surroundings
        (codes "KEY")
        (is_initial hwm)
        cursor
        changed
        (synchronize client surroundings (codes "KEY") (at_start [])).1
synchronize-IsStored_example =
    synchronize-IsStored client surroundings (codes "KEY") (at_start []) pass-is_idle

abbrev clear_asked : State ℕ
clear_asked = record (at_start []) { clear_cache_requested = true }

opening_works : (ensure_open clear_asked.db).0 ≡ true
unfolding ensure_open
opening_works = refl

clearing_works : (clear_all_sales (ensure_open clear_asked.db).1).0 ≡ true
unfolding ensure_open clear_all_sales clear_body delete_sales delete_products reset_sync_state
    when_open transaction begin commit or_rollback call statement ◌⊳◌
clearing_works = refl

run_synchronization-clears_example :
    (w₂ : World client surroundings) × (w₂.clear_cache_requested ≡ false)
    × ((e : Bytes) → cache_of w₂.db e ≡ [])
    × ((get_changed_dates_highwatermark w₂.db).0 ≡ zero_mark)
    × ((now : Bytes)
        → (get_backfill_cursor
            (set_last_successful_check_utc now (get_changed_dates_highwatermark w₂.db).1).1).0
          ≡ [])
    × ((initial : Bool) (d : Bytes) → already_synced initial [] d ≡ false)
    × (run_synchronization client surroundings clear_asked
        ≡ with_key client surroundings (usable_key surroundings.secret) w₂)
run_synchronization-clears_example =
    run_synchronization-clears client surroundings clear_asked refl opening_works clearing_works
