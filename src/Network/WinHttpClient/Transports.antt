-- ===== src/Network/WinHttpClient/Transports.antt =====
-- network/WinHttpClient.cpp as the transport of the client of steam/SteamFinancialClient.cpp: its
-- validity, its GET to api host and port, and `DescribeWinHttpError`.
use steam_sales_tray.Network.WinHttpClient.{WinHttp, ReadsAtMost, Session, http_get, no_result}
use steam_sales_tray.Network.WinHttpClient.Body.{IsRefused}
use steam_sales_tray.Network.WinHttpClient.Answer.{IsAnswer, IsAnswered, http_get-answers}
use steam_sales_tray.Network.UrlEncoder.{encode_component}
use steam_sales_tray.Shared.{
  ℕ, zero, suc, ◌+◌, ◌-◌, ◌/◌, ◌%◌, ◌≤◌, ◌<◌, ◌≡◌, refl, sym, subst, ◌⊎◌, inl, inr, Bool, true,
  false, ◌&&◌, ◌||◌, Option, none, some, [], ◌∷◌, ◌++◌, length, is_empty, ltb, leb, ◌==◌,
  if◌then◌else◌, arith, Bool-cases,
}
use steam_sales_tray.Shared.Bytes.{Bytes, Wide, codes}
use steam_sales_tray.Steam.Json.{Yyjson, ParseResult, parsed_ok, parse_changed_dates}
use steam_sales_tray.Steam.Client.{
  HttpResult, FinancialResult, Request, Transport, is_ok, classify, classify_status,
  is_offline_error, refine, get_changed_dates, max_changed_dates, path_changed_dates, build_query,
  or_zero, parse_kind,
}

unfoldable pub is_trimmed : ℕ → Bool
is_trimmed c = c == 13 || (c == 10 || (c == b'.' || c == b' '))

-- the loop of pop_back
unfoldable pub trim_end : Wide → Wide
unfolding is_trimmed
trim_end [] = []
trim_end (c ∷ text) =
    let rest = trim_end text in if is_empty rest && is_trimmed c then [] else c ∷ rest

unfoldable pub hex_digit_upper : ℕ → ℕ
hex_digit_upper d = if ltb d 10 then b'0' + d else b'A' + d - 10

-- "%08X" of 32 bits
unfoldable pub hex8 : ℕ → Wide
unfolding hex_digit_upper
hex8 code = digits 8 code []
  where
    digits : ℕ → ℕ → Wide → Wide
    digits zero n rest = rest
    digits (suc left) n rest = digits left (n / 16) (hex_digit_upper (n % 16) ∷ rest)

abbrev pub https_port : ℕ
https_port = 443

abbrev pub steam_host : Wide
steam_host = codes "partner.steam-api.com"

refine-is_ok :
    (result : FinancialResult) (parsed : ParseResult)
    → is_ok (refine result parsed) ≡ true
    → parsed_ok parsed ≡ true
unfolding refine parsed_ok is_ok parse_kind
refine-is_ok result parsed ok = ground arith

abbrev dates_request : Bytes → Bytes → Request
dates_request key mark = record {
  path = path_changed_dates;
  query = build_query key (codes "highwatermark=" ++ encode_component (or_zero mark));
  max_bytes = max_changed_dates;
}

-- A success of GetChangedDates on any transport is read off the answer to its request.
get_changed_dates-is_ok :
    (y : Yyjson) (t : Transport) (key mark : Bytes) (net : t.Net)
    → is_ok (get_changed_dates y t key mark net).0 ≡ true
    → let (http, net') = t.get net (dates_request key mark) in
      let (result, out, after) = get_changed_dates y t key mark net in
      (is_ok (classify t http) ≡ true)
      × (parsed_ok (parse_changed_dates y http.body).0 ≡ true)
      × (out ≡ (parse_changed_dates y http.body).1)
      × (after ≡ net')
unfolding get_changed_dates is_ok
get_changed_dates-is_ok y t key mark net ok = elim (Bool-cases (t.is_valid net)) [
  | inr e ↦ ground arith
  | inl e ↦ elim (Bool-cases (is_ok (classify t (t.get net (dates_request key mark)).0))) [
    | inl e2 ↦ grind (arith, refine-is_ok)
    | inr e2 ↦ ground arith
  ]
]

module _ (api : WinHttp) where
  unfoldable pub describe_win_http_error : ℕ → Wide
  unfolding trim_end hex8
  describe_win_http_error code =
      let from_module = leb 12000 code && leb code api.winhttp_error_last in
      let message : Wide = elim (api.format_message from_module code) [
        | none ↦ []
        | some text ↦ trim_end text
      ] in
      (if is_empty message then codes "network error" else message)
      ++ (codes " (0x" ++ (hex8 code ++ codes ")"))

  -- WinHttpClient::IsValid
  unfoldable pub is_valid_session : Session api → Bool
  is_valid_session c = elim c.session [ none ↦ false | some h ↦ true ]

  unfoldable pub or_no_result :
      Session api → Option (HttpResult × Session api) → HttpResult × Session api
  or_no_result c none = (no_result, c)
  or_no_result c (some x) = x

  -- the client's transport: `http_get` to the host of the API
  abbrev pub win_http_transport : Transport
  win_http_transport = record {
    Net = Session api;
    is_valid = is_valid_session;
    get = λ c request.
        or_no_result c
          (http_get api steam_host https_port request.path request.query request.max_bytes c);
    describe_error = describe_win_http_error;
  }

  -- the answer a result rests on: its status tells success, and its body is delivered whole
  abbrev pub IsSuccess : ℕ → HttpResult → Session api → Type 0
  IsSuccess max_bytes http c =
      (200 ≤ http.status_code)
      × (http.status_code < 300)
      × (length http.body ≤ max_bytes)
      × IsAnswer api http c.sys

  or_no_result-some :
      (c : Session api) (r : HttpResult) (c' : Session api)
      → or_no_result c (some (r, c')) ≡ (r, c')
  unfolding or_no_result
  or_no_result-some c r c' = refl

  is_ok-classify_status :
      (status : ℕ) → is_ok (classify_status status) ≡ true → (200 ≤ status) × (status < 300)
  unfolding is_ok classify_status
  is_ok-classify_status status ok = ground arith

  is_ok-classify :
      (http : HttpResult)
      → is_ok (classify win_http_transport http) ≡ true
      → (http.exceeded_limit ≡ false)
        × (http.transport_ok ≡ true)
        × (200 ≤ http.status_code)
        × (http.status_code < 300)
  unfolding classify is_ok is_offline_error
  is_ok-classify http ok = ground (arith, is_ok-classify_status http.status_code)

  answer-IsSuccess :
      (max_bytes : ℕ) (http : HttpResult) (c : Session api)
      → length http.body ≤ max_bytes
      → (IsRefused http) ⊎ IsAnswer api http c.sys
      → is_ok (classify win_http_transport http) ≡ true
      → IsSuccess max_bytes http c
  answer-IsSuccess max_bytes http c fits (inl refused) ok = ground (arith, is_ok-classify http ok)
  answer-IsSuccess max_bytes http c fits (inr answer) ok =
      let (_, _, low, high) = is_ok-classify http ok in (low, high, fits, answer)

  IsAnswered-IsSuccess :
      (max_bytes : ℕ) (c : Session api) (x : Option (HttpResult × Session api))
      → IsAnswered api max_bytes x
      → is_ok (classify win_http_transport (or_no_result c x).0) ≡ true
      → IsSuccess max_bytes (or_no_result c x).0 (or_no_result c x).1
  IsAnswered-IsSuccess max_bytes c x (r, c', e, fits, answer) =
      let same : or_no_result c x ≡ (r, c') = rw e (or_no_result-some c r c') in
      rw same (answer-IsSuccess max_bytes r c' fits answer)

  -- GetChangedDates over WinHTTP, where it succeeds: the dates and the mark are what the parser reads
  -- in a body of at most 8 MiB, whole as the server delivered it, with a status from 200 to 299.
  pub get_changed_dates-delivered :
      (y : Yyjson) (key mark : Bytes) (c : Session api)
      → ReadsAtMost api
      → is_ok (get_changed_dates y win_http_transport key mark c).0 ≡ true
      → (http : HttpResult) × IsSuccess max_changed_dates http
          (get_changed_dates y win_http_transport key mark c).2
        × (parsed_ok (parse_changed_dates y http.body).0 ≡ true)
        × ((get_changed_dates y win_http_transport key mark c).1
            ≡ (parse_changed_dates y http.body).1)
  get_changed_dates-delivered y key mark c law ok =
      let (fine, parsed, out, after) = get_changed_dates-is_ok y win_http_transport key mark c ok in
      let request = dates_request key mark in
      let answer =
        http_get-answers api steam_host https_port request.path request.query request.max_bytes c
          law in
      (
        _,
        subst (IsSuccess max_changed_dates _) (sym after)
            (IsAnswered-IsSuccess max_changed_dates c _ answer fine),
        parsed,
        out,
      )
