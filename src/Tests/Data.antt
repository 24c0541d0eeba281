-- ===== src/Tests/Data.antt =====
-- Test data: records of two apps, a database with one date, and simple parts in place of the JSON
-- reader, the HTTPS session and the Steam client.
use steam_sales_tray.Shared.{
  ℕ, ◌==◌, ◌+◌, true, false, ◌&&◌, ◌||◌, Option, none, some, List, [], ◌∷◌, if◌then◌else◌,
}
use steam_sales_tray.Shared.Bytes.{Bytes, codes, bytes_eq}
use steam_sales_tray.Steam.Models.{DetailedSalesRecord}
use steam_sales_tray.Steam.Client.{Transport, all_ok}
use steam_sales_tray.Steam.Json.{Yyjson}
use steam_sales_tray.Storage.Models.{DailyProductRow}
use steam_sales_tray.Storage.Connection.{DailyProductSale, Tables, Connection, Outcome}
use steam_sales_tray.Sync.Service.Monad.{SteamApi, Env, State, idle}

abbrev pub monday : Bytes
monday = codes "2024/05/06"

abbrev pub tuesday : Bytes
tuesday = codes "2024/05/07"

abbrev pub noon : Bytes
noon = codes "2024-05-07T12:00:00Z"

-- Two sales of app 7, and a retail sale that does not count.
abbrev pub sale_of_app : ℕ → ℕ → DetailedSalesRecord
sale_of_app app units = record {
  line_item_type = codes "Package";
  package_sale_type = codes "Steam";
  primary_app_id = app;
  primary_app_name = codes "Game";
  net_units_sold = units;
  gross_units_sold = units;
  gross_units_returned = 0;
}

abbrev pub retail_sale : DetailedSalesRecord
retail_sale = record (sale_of_app 9 1) { package_sale_type = codes "Retail" }

abbrev pub three_records : List DetailedSalesRecord
three_records = sale_of_app 7 3 ∷ retail_sale ∷ sale_of_app 7 2 ∷ []

abbrev pub game_row : DailyProductRow
game_row = record {
  app_id = 7;
  display_name = codes "Game";
  net_units_sold = 5;
  gross_units_sold = 5;
  gross_units_returned = 0;
}

abbrev pub stored_sale : Bytes → ℕ → DailyProductSale
stored_sale date units = record {
  financial_date = date;
  app_id = 7;
  gross_units_sold = units;
  gross_units_returned = 0;
  net_units_sold = units;
}

-- Both dates are stored, and the first synchronisation is done.
abbrev pub two_dates : Tables
two_dates = record {
  schema_version = some 2;
  has_cursor_column = true;
  sync_state = record {
    changed_dates_highwatermark = codes "41";
    last_successful_check_utc = none;
    last_successful_sync_utc = none;
    last_error = none;
    backfill_cursor = none;
  };
  products = record { app_id = 7; display_name = codes "Game"; last_seen_utc = noon } ∷ [];
  daily_product_sales = stored_sale monday 1 ∷ stored_sale tuesday 2 ∷ [];
}

abbrev pub connected : List Outcome → Connection
connected outcomes = record {
  is_open = true;
  tables = two_dates;
  saved = none;
  outcomes = outcomes;
}

-- Values of a JSON text, numbered: an app_info entry, its fields, and the response around it.
abbrev pub field_of : ℕ → Bytes → Option ℕ
field_of v key =
    if v == 0 && bytes_eq key (codes "appid")
    then some 1
    else if v == 0 && bytes_eq key (codes "app_name")
    then some 2
    else if v == 3 && bytes_eq key (codes "response")
    then some 4
    else if v == 4 && bytes_eq key (codes "results")
    then some 5
    else if v == 6 && bytes_eq key (codes "primary_appid")
    then some 1
    else none

abbrev pub json : Yyjson
json = record {
  Doc = Unit {0};
  Val = ℕ;
  read = λ text. some tt;
  root = λ doc. some 3;
  obj_get = field_of;
  is_obj = λ v. v == 0 || (v == 3 || (v == 4 || v == 6));
  is_arr = λ v. v == 5;
  is_str = λ v. v == 1 || v == 2;
  is_sint = λ v. false;
  is_int = λ v. false;
  is_uint = λ v. false;
  is_real = λ v. false;
  get_str = λ v. if v == 1 then codes "480" else codes "Spacewar";
  get_sint = λ v. 0;
  get_uint = λ v. 0;
  real_to_int64 = λ v. 0;
  items = λ v. 6 ∷ [];
}

-- A server that answers every request with the status 200.
abbrev pub server : Transport
server = record {
  Net = ℕ;
  is_valid = λ net. true;
  get = λ net request. (
    record {
      transport_ok = true;
      win32_error = 0;
      status_code = 200;
      exceeded_limit = false;
      body = [];
    },
    net + 1,
  );
  describe_error = λ e. [];
}

-- A Steam client with one changed date.
abbrev pub client : SteamApi
client = record {
  Net = ℕ;
  get_changed_dates = λ key hwm net.
      (all_ok, record { dates = tuesday ∷ []; result_highwatermark = codes "42" }, net);
  get_all_sales_for_date = λ key date net. (all_ok, three_records, net);
}

abbrev pub surroundings : Env
surroundings = record {
  secret = record { has_stored_key = true; load = some (codes "KEY") };
  notify_enabled = false;
  utc_now = noon;
  steam_today = tuesday;
  system_clock = 5;
  utf8_to_wide = λ s. s;
  wide_to_utf8 = λ s. s;
  hash_order = λ rows. rows;
}

abbrev pub at_start : List Outcome → State ℕ
at_start outcomes = record {
  status = record {
    status = idle;
    message = [];
    last_attempt = 0;
    last_success = 0;
    completed_dates = 0;
    total_dates = 0;
    notification = [];
  };
  clear_cache_requested = false;
  posted = [];
  logged = [];
  db = connected outcomes;
  net = 0;
}
