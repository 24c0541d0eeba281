-- ===== src/Tests/Delivering.antt =====
-- Tests of a pass with the Steam client of the program.
use steam_sales_tray.Shared.{◌≡◌, refl, true, ◌&&◌, ◌||◌, ◌⊎◌, some, [], ◌∷◌, ◌==◌, if◌then◌else◌}
use steam_sales_tray.Shared.Bytes.{Bytes, codes, bytes_eq, bytes_leb}
use steam_sales_tray.Storage.Connection.{
  when_open, transaction, begin, commit, or_rollback, call, prepare, statement, ◌⊳◌,
}
use steam_sales_tray.Storage.Database.{
  replace_date, replace_body, store_rows, store_row, delete_date, upsert_product, insert_daily,
  has_product, has_sale, sale_of, product_of, upsert, read, or_zero_mark,
  get_changed_dates_highwatermark, set_changed_dates_highwatermark, get_backfill_cursor,
  set_sync_state_column, set_last_successful_check_utc, set_last_successful_sync_utc,
  set_last_error,
}
use steam_sales_tray.Steam.Json.{
  Yyjson, read_response, parse_changed_dates, parse_detailed_sales_page, parsed_ok, strings_of,
  array_items, get_number_as_string, parse_records, find_records, parse_record, get_str_field,
}
use steam_sales_tray.Steam.Client.{
  is_ok, classify, refine, get_changed_dates, get_detailed_sales, get_all_detailed_sales_for_date,
  fetch_pages, is_last,
}
use steam_sales_tray.Sync.Aggregator.{
  aggregate_date, aggregate_from, add_record, is_skipped, add_found, find, change_at, add_to_row,
  new_row,
}
use steam_sales_tray.Sync.Service.Monad.{
  SteamApi, idle, on_db, log, on_status, set_status, post, pure, ◌>>=◌, ◌>>◌,
}
use steam_sales_tray.Sync.Service.Sales.{contains}
use steam_sales_tray.Sync.Service.Dates.{
  request_sales, checkpoint, after_store, store_date, process_date, process_dates,
}
use steam_sales_tray.Sync.Service.{
  is_initial, insert_date, sort_dates, already_synced, dates_left, request_changed_dates,
  advance_mark, snapshot, notification_text, announce, finish_changed, log_resumed, process_left,
  process_changed, process_answer, synchronize,
}
use steam_sales_tray.Sync.Program.{steam_client, IsDelivered, synchronize-IsDelivered}
use steam_sales_tray.Tests.Data.{json, server, field_of, surroundings, at_start, tuesday}

-- The response also names one changed date.
abbrev dated_json : Yyjson
dated_json = record json {
  obj_get = λ v key. if v == 4 && bytes_eq key (codes "dates") then some 7 else field_of v key;
  is_arr = λ v. v == 5 || v == 7;
  is_str = λ v. v == 1 || (v == 2 || v == 8);
  get_str =
      λ v. if v == 1 then codes "480" else if v == 8 then codes "2024/05/07" else codes "Spacewar";
  items = λ v. if v == 7 then 8 ∷ [] else 6 ∷ [];
}

-- The date of that response is in the list that the client returns.
tuesday-listed :
    contains tuesday (get_changed_dates dated_json server (codes "KEY") (codes "41") 0).1.dates
    ≡ true
unfolding get_changed_dates parse_changed_dates read_response bytes_eq codes classify is_ok
    strings_of array_items
tuesday-listed = refl

abbrev program : SteamApi
program = steam_client dated_json server

delivery-is_idle :
    (synchronize program surroundings (codes "KEY") (at_start [])).1.status.status ≡ idle
unfolding synchronize request_changed_dates process_answer process_changed process_left
    process_dates process_date request_sales store_date after_store checkpoint finish_changed
    advance_mark notification_text announce snapshot log_resumed sort_dates insert_date dates_left
    already_synced is_initial on_db log on_status set_status post pure ◌>>=◌ ◌>>◌ is_ok
    get_changed_dates_highwatermark set_changed_dates_highwatermark get_backfill_cursor
    set_sync_state_column set_last_successful_check_utc set_last_successful_sync_utc set_last_error
    read or_zero_mark replace_date replace_body when_open transaction begin commit or_rollback call
    prepare statement ◌⊳◌ store_rows store_row delete_date upsert_product insert_daily has_product
    has_sale sale_of product_of aggregate_date codes bytes_eq bytes_leb aggregate_from add_record
    is_skipped add_found find change_at upsert add_to_row new_row get_changed_dates
    parse_changed_dates read_response classify strings_of array_items refine parsed_ok
    get_all_detailed_sales_for_date fetch_pages get_detailed_sales parse_detailed_sales_page is_last
    get_number_as_string parse_records find_records parse_record get_str_field
delivery-is_idle = refl

synchronize-IsDelivered_example :
    let (hwm, c) = get_changed_dates_highwatermark (at_start []).db in
    let (r, changed, net) = get_changed_dates dated_json server (codes "KEY") hwm 0 in
    let cursor = (get_backfill_cursor (set_last_successful_check_utc surroundings.utc_now c).1).0 in
    let after = (synchronize program surroundings (codes "KEY") (at_start [])).1 in
    (is_ok r ≡ true)
    × ((e : Bytes)
        → contains e changed.dates ≡ true
        → (already_synced (is_initial hwm) cursor e ≡ true)
          ⊎ IsDelivered dated_json server surroundings (codes "KEY") e after)
synchronize-IsDelivered_example =
    synchronize-IsDelivered dated_json server surroundings (codes "KEY") (at_start [])
      delivery-is_idle
