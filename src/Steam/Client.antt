-- ===== src/Steam/Client.antt =====
-- steam/SteamFinancialClient.cpp. The HTTPS session is the parameter `Transport`, which keeps a state
-- of its own, so that a request may be answered differently each time.
pub mod Pages
use steam_sales_tray.Shared.{
  ℕ, zero, suc, ◌+◌, ◌*◌, Bool, true, false, not, ◌&&◌, ◌||◌, Option, none, some, List, [], ◌∷◌,
  ◌++◌, is_empty, ltb, leb, ◌==◌, if◌then◌else◌,
}
use steam_sales_tray.Shared.Bytes.{Bytes, Wide, codes, bytes_eq}
use steam_sales_tray.Shared.Decimal.{to_string}
use steam_sales_tray.Network.UrlEncoder.{encode_component}
use steam_sales_tray.Steam.Models.{ChangedDates, DetailedSalesRecord, DetailedSalesPage}
use steam_sales_tray.Steam.Json.{
  Yyjson, ParseStatus, ParseResult, parsed_ok, no_changed_dates, empty_page, parse_changed_dates,
  parse_detailed_sales_page,
}

pub data ResultKind : Type 0 where
  success offline auth rate_limited server_error too_large parse other : ResultKind

pub record FinancialResult : Type 0 where
  pub kind : ResultKind
  pub http_status : ℕ
  pub message : Wide

-- FinancialResult::ok
unfoldable pub is_ok : FinancialResult → Bool
is_ok r = elim r.kind [ success ↦ true | _ ↦ false ]

pub record HttpResult : Type 0 where
  pub transport_ok : Bool
  pub win32_error : ℕ
  pub status_code : ℕ
  pub exceeded_limit : Bool
  pub body : Bytes

pub record Request : Type 0 where
  pub path : Wide
  pub query : Wide
  pub max_bytes : ℕ

pub record Transport : Type 1 where
  pub Net : Type 0
  pub is_valid : Net → Bool
  pub get : Net → Request → HttpResult × Net
  pub describe_error : ℕ → Wide

abbrev pub path_changed_dates : Wide
path_changed_dates = codes "/IPartnerFinancialsService/GetChangedDatesForPartner/v001/"

abbrev pub path_detailed_sales : Wide
path_detailed_sales = codes "/IPartnerFinancialsService/GetDetailedSales/v001/"

abbrev pub max_changed_dates : ℕ
max_changed_dates = 8 * 1024 * 1024

abbrev pub max_detailed_sales : ℕ
max_detailed_sales = 32 * 1024 * 1024

abbrev pub max_pages_per_date : ℕ
max_pages_per_date = 10_000

unfoldable pub build_query : Bytes → Wide → Wide
build_query key extra =
    (codes "key=" ++ encode_component key ++ codes "&include_view_grants=false")
    ++ (if is_empty extra then [] else codes "&" ++ extra)

-- ERROR_WINHTTP_NAME_NOT_RESOLVED, CANNOT_CONNECT, TIMEOUT and CONNECTION_ERROR of winhttp.h
unfoldable pub is_offline_error : ℕ → Bool
is_offline_error e = e == 12007 || e == 12029 || e == 12002 || e == 12030

unfoldable pub classify_status : ℕ → FinancialResult
classify_status s =
    if leb 200 s && ltb s 300
    then record { kind = success; http_status = s; message = [] }
    else if s == 401 || s == 403
    then record {
      kind = auth;
      http_status = s;
      message =
          codes "The API key was rejected (check the key and its Financial API Group access).";
    }
    else if s == 429
    then record {
      kind = rate_limited;
      http_status = s;
      message = codes "Rate limited by Steam; will retry later.";
    }
    else if leb 500 s
    then record {
      kind = server_error;
      http_status = s;
      message = codes "Steam reported a server error (HTTP " ++ to_string s ++ codes ").";
    }
    else record {
      kind = other;
      http_status = s;
      message = codes "Unexpected HTTP status " ++ to_string s ++ codes ".";
    }

unfoldable pub parse_message : ParseResult → Wide
parse_message p = if is_empty p.message then codes "Could not read Steam's response." else p.message

unfoldable pub parse_kind : ParseStatus → ResultKind
parse_kind ParseStatus.api_error = auth
parse_kind _ = parse

-- the end of a request: a body that does not parse refines the result
unfoldable pub refine : FinancialResult → ParseResult → FinancialResult
unfolding parse_kind parse_message parsed_ok
refine result parsed =
    if parsed_ok parsed
    then result
    else record result { kind = parse_kind parsed.status; message = parse_message parsed }

abbrev pub no_session : FinancialResult
no_session = record {
  kind = offline;
  http_status = 0;
  message = codes "Could not initialize the network session.";
}

unfoldable pub or_zero : Bytes → Bytes
or_zero mark = if is_empty mark then codes "0" else mark

abbrev pub all_ok : FinancialResult
all_ok = record { kind = success; http_status = 0; message = [] }

-- no cursor, or one that stopped advancing
unfoldable pub is_last : DetailedSalesPage → Bytes → Bool
is_last page requested = not page.has_max_id || bytes_eq page.max_id requested

module _ (t : Transport) where
  unfoldable pub classify : HttpResult → FinancialResult
  unfolding classify_status is_offline_error
  classify http =
      if http.exceeded_limit
      then record {
        kind = too_large;
        http_status = http.status_code;
        message = codes "The response was larger than the allowed limit.";
      }
      else if http.transport_ok
      then classify_status http.status_code
      else record {
        kind = if is_offline_error http.win32_error then offline else other;
        http_status = http.status_code;
        message = t.describe_error http.win32_error;
      }

module _ (y : Yyjson) (t : Transport) where
  open t use {Net, is_valid, get}

  unfoldable pub get_changed_dates : Bytes → Bytes → Net → FinancialResult × ChangedDates × Net
  get_changed_dates key highwatermark net =
      let extra = codes "highwatermark=" ++ encode_component (or_zero highwatermark) in
      let (http, net') = get net (record {
        path = path_changed_dates;
        query = build_query key extra;
        max_bytes = max_changed_dates;
      }) in
      let result = classify t http in
      let (parsed, out) = parse_changed_dates y http.body in
      if is_valid net
      then if is_ok result
        then (refine result parsed, out, net')
        else (result, no_changed_dates, net')
      else (no_session, no_changed_dates, net)

  unfoldable pub get_detailed_sales :
      Bytes → Bytes → Bytes → Net → FinancialResult × DetailedSalesPage × Net
  get_detailed_sales key date highwatermark_id net =
      let extra =
        codes "date="
        ++ encode_component date
        ++ (codes "&highwatermark_id=" ++ encode_component (or_zero highwatermark_id)) in
      let (http, net') = get net (record {
        path = path_detailed_sales;
        query = build_query key extra;
        max_bytes = max_detailed_sales;
      }) in
      let result = classify t http in
      let (parsed, out) = parse_detailed_sales_page y http.body in
      if is_valid net
      then if is_ok result then (refine result parsed, out, net') else (result, empty_page, net')
      else (no_session, empty_page, net)

  -- The loop over the pages, with the number of pages left: it ends at 0 with what it has.
  unfoldable pub fetch_pages :
      ℕ
      → Bytes
      → Bytes
      → Bytes
      → List DetailedSalesRecord
      → Net
      → FinancialResult × List DetailedSalesRecord × Net
  fetch_pages zero key date requested out net = (all_ok, out, net)
  fetch_pages (suc left) key date requested out net =
      let (r, page, net') = get_detailed_sales key date requested net in
      let out' = out ++ page.records in
      let rest = fetch_pages left key date page.max_id out' net' in
      if is_ok r
      then if is_last page requested then (all_ok, out', net') else rest
      else (r, out, net')

  unfoldable pub get_all_detailed_sales_for_date :
      Bytes → Bytes → Net → FinancialResult × List DetailedSalesRecord × Net
  get_all_detailed_sales_for_date key date net =
      fetch_pages max_pages_per_date key date (codes "0") [] net
