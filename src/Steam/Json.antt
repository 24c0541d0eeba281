-- ===== src/Steam/Json.antt =====
-- steam/SteamJsonParser.cpp. The JSON reader (yyjson) is not part of the program: what the parser
-- calls of it is the parameter `Yyjson`.
pub mod Numbers
pub mod Names
use steam_sales_tray.Shared.{
  ◌%◌, ℕ, Bool, true, false, not, ◌&&◌, ◌||◌, Option, none, some, List, [], ◌∷◌, ◌++◌, is_empty,
  ◌==◌, if◌then◌else◌,
}
use steam_sales_tray.Shared.Bytes.{Bytes, Wide, codes}
use steam_sales_tray.Shared.Word.{Int64, word_mod}
use steam_sales_tray.Shared.Decimal.{to_string, to_string_signed}
use steam_sales_tray.Steam.Models.{ChangedDates, DetailedSalesRecord, DetailedSalesPage}
use Numbers.{strtoll}

pub record Yyjson : Type 1 where
  pub Doc : Type 0
  pub Val : Type 0
  pub read : Bytes → Option Doc
  pub root : Doc → Option Val
  pub obj_get : Val → Bytes → Option Val
  pub is_obj : Val → Bool
  pub is_arr : Val → Bool
  pub is_str : Val → Bool
  pub is_sint : Val → Bool
  pub is_int : Val → Bool
  pub is_uint : Val → Bool
  pub is_real : Val → Bool
  pub get_str : Val → Bytes
  pub get_sint : Val → Int64
  pub get_uint : Val → ℕ
  pub real_to_int64 : Val → Int64
  pub items : Val → List Val

pub data ParseStatus : Type 0 where
  ok invalid_json missing_response api_error structure_error : ParseStatus

pub record ParseResult : Type 0 where
  pub status : ParseStatus
  pub message : Wide

unfoldable pub parsed_ok : ParseResult → Bool
parsed_ok r = elim r.status [ ok ↦ true | _ ↦ false ]

abbrev pub no_changed_dates : ChangedDates
no_changed_dates = record { dates = []; result_highwatermark = [] }

abbrev pub empty_page : DetailedSalesPage
empty_page = record { records = []; max_id = []; has_max_id = false }

-- `appNames.find`: a later entry hides an earlier one.
unfoldable pub find_name : Int64 → List (Int64 × Bytes) → Option Bytes
find_name a [] = none
find_name a ((b, name) ∷ names) = if b == a then some name else find_name a names

module _ (y : Yyjson) where
  open y use {
    Doc, Val, read, root, obj_get, is_obj, is_arr, is_str, is_sint, is_int, is_uint, is_real,
    get_str, get_sint, get_uint, real_to_int64, items,
  }

  unfoldable pub str_value : Option Val → Bytes
  str_value none = []
  str_value (some v) = if is_str v then get_str v else []

  unfoldable pub get_str_field : Val → Bytes → Bytes
  unfolding str_value
  get_str_field obj key = str_value (obj_get obj key)

  unfoldable pub int64_value : Option Val → Int64
  int64_value none = 0
  int64_value (some v) =
      if is_sint v || is_int v
      then get_sint v
      else if is_uint v
      then get_uint v % word_mod
      else if is_real v
      then real_to_int64 v
      else if is_str v
      then strtoll (get_str v)
      else 0

  unfoldable pub get_int64 : Val → Bytes → Int64
  unfolding int64_value
  get_int64 obj key = int64_value (obj_get obj key)

  unfoldable pub number_value : Option Val → Bytes
  number_value none = []
  number_value (some v) =
      if is_str v
      then get_str v
      else if is_uint v
      then to_string (get_uint v)
      else if is_sint v || is_int v
      then to_string_signed (get_sint v)
      else []

  unfoldable pub get_number_as_string : Val → Bytes → Bytes
  unfolding number_value
  get_number_as_string obj key = number_value (obj_get obj key)

  -- `nullptr` with a classified failure, or the "response" object.
  pub data Response : Type 0 where
    failure : ParseResult → Response
    found : Val → Response

  unfoldable pub find_response : Option Val → Response
  find_response none =
      failure (record { status = missing_response; message = codes "missing \"response\" object" })
  find_response (some response) =
      if is_obj response
      then found response
      else failure
          (record { status = missing_response; message = codes "missing \"response\" object" })

  unfoldable pub check_root : Option Val → Response
  unfolding find_response
  check_root none =
      failure (record { status = structure_error; message = codes "response is not a JSON object" })
  check_root (some v) =
      if is_obj v
      then elim (obj_get v (codes "error")) [
        | some err ↦
            failure (record { status = api_error; message = codes "Steam returned an API error" })
        | none ↦ find_response (obj_get v (codes "response"))
      ]
      else failure
          (record { status = structure_error; message = codes "response is not a JSON object" })

  unfoldable pub get_response : Doc → Response
  unfolding check_root
  get_response doc = check_root (root doc)

  -- The response of a body, or the failure of its parse.
  unfoldable pub read_response : Bytes → Response
  unfolding get_response
  read_response json = elim (read json) [
    | none ↦ failure (record { status = invalid_json; message = codes "could not parse JSON" })
    | some doc ↦ get_response doc
  ]

  -- the items of an array; any other value, or none, has no items
  unfoldable pub array_items : Option Val → List Val
  array_items none = []
  array_items (some v) = if is_arr v then items v else []

  unfoldable pub strings_of : List Val → List Bytes
  strings_of [] = []
  strings_of (v ∷ vs) = if is_str v then get_str v ∷ strings_of vs else strings_of vs

  unfoldable pub parse_changed_dates : Bytes → ParseResult × ChangedDates
  parse_changed_dates json = elim (read_response json) [
    | failure result ↦ (result, no_changed_dates)
    | found response ↦ (
      record { status = ok; message = [] },
      record {
        dates = strings_of (array_items (obj_get response (codes "dates")));
        result_highwatermark = get_number_as_string response (codes "result_highwatermark");
      },
    )
  ]

  unfoldable pub add_name : Val → List (Int64 × Bytes) → List (Int64 × Bytes)
  add_name entry names =
      let id = get_int64 entry (codes "appid") in
      let name = get_str_field entry (codes "app_name") in
      if is_obj entry && not (id == 0) && not (is_empty name) then (id, name) ∷ names else names

  -- The later entries are put in front.
  unfoldable pub app_names : List Val → List (Int64 × Bytes) → List (Int64 × Bytes)
  app_names [] names = names
  app_names (entry ∷ entries) names = app_names entries (add_name entry names)

  -- the first candidate key whose value is an array
  unfoldable pub find_records : Val → List Bytes → List Val
  find_records response [] = []
  find_records response (key ∷ keys) = elim (obj_get response key) [
    | none ↦ find_records response keys
    | some candidate ↦ if is_arr candidate then items candidate else find_records response keys
  ]

  unfoldable pub resolve_name : List (Int64 × Bytes) → Int64 → Bytes → Bytes
  resolve_name names id own =
      if is_empty own then elim (find_name id names) [ none ↦ own | some name ↦ name ] else own

  unfoldable pub parse_record : List (Int64 × Bytes) → Val → DetailedSalesRecord
  unfolding resolve_name
  parse_record names item =
      let id = get_int64 item (codes "primary_appid") in
      record {
        line_item_type = get_str_field item (codes "line_item_type");
        package_sale_type = get_str_field item (codes "package_sale_type");
        primary_app_id = id;
        primary_app_name = resolve_name names id (get_str_field item (codes "primary_app_name"));
        net_units_sold = get_int64 item (codes "net_units_sold");
        gross_units_sold = get_int64 item (codes "gross_units_sold");
        gross_units_returned = get_int64 item (codes "gross_units_returned");
      }

  unfoldable pub parse_records : List (Int64 × Bytes) → List Val → List DetailedSalesRecord
  parse_records names [] = []
  parse_records names (item ∷ rest) =
      if is_obj item
      then parse_record names item ∷ parse_records names rest
      else parse_records names rest

  unfoldable pub parse_detailed_sales_page : Bytes → ParseResult × DetailedSalesPage
  parse_detailed_sales_page json = elim (read_response json) [
    | failure result ↦ (result, empty_page)
    | found response ↦
        let max_id = get_number_as_string response (codes "max_id") in
        let names = app_names (array_items (obj_get response (codes "app_info"))) [] in
        (
          record { status = ok; message = [] },
          record {
            records =
                parse_records names (
                  find_records response
                    (codes "results" ∷ codes "sales" ∷ codes "line_items" ∷ []));
            max_id = max_id;
            has_max_id = not (is_empty max_id);
          },
        )
  ]
