-- ===== src/Network/WinHttpClient.antt =====
-- network/WinHttpClient.cpp: the session, its connection, a GET request with the loop that reads the
-- body, and the text of an error. The calls of WinHTTP are the parameter `WinHttp`: a system of any
-- type, and one field for each call. Handles are closed by their destructors, which is left out.
pub mod Body
pub mod Answer
pub mod Transports
use steam_sales_tray.Shared.{
  ℕ, zero, suc, ◌+◌, ◌-◌, ◌/◌, ◌%◌, ◌*◌, ◌≡◌, ◌≤◌, Bool, true, false, ◌&&◌, ◌||◌, Option, none,
  some, List, [], ◌∷◌, ◌++◌, length, is_empty, ltb, leb, ◌==◌, if◌then◌else◌,
}
use steam_sales_tray.Shared.Bytes.{Bytes, Wide, codes, bytes_eq}
use steam_sales_tray.Steam.Client.{HttpResult}

pub record WinHttp : Type 1 where
  pub Sys : Type 0
  pub Handle : Type 0
  -- WinHttpOpen with WINHTTP_ACCESS_TYPE_AUTOMATIC_PROXY, and with WINHTTP_ACCESS_TYPE_DEFAULT_PROXY
  pub open_automatic : Sys → Option Handle × Sys
  pub open_default : Sys → Option Handle × Sys
  -- WinHttpSetTimeouts: resolve, connect, send, receive
  pub set_timeouts : Handle → ℕ → ℕ → ℕ → ℕ → Sys → Sys
  -- WinHttpSetOption of WINHTTP_OPTION_SECURE_PROTOCOLS to TLS 1.2 and 1.3
  pub require_modern_tls : Handle → Sys → Sys
  pub connect : Handle → Wide → ℕ → Sys → Option Handle × Sys
  -- WinHttpOpenRequest with "GET" and WINHTTP_FLAG_SECURE
  pub open_request : Handle → Wide → Sys → Option Handle × Sys
  pub send_request : Handle → Wide → Sys → Bool × Sys
  pub receive_response : Handle → Sys → Bool × Sys
  -- WinHttpQueryHeaders of WINHTTP_QUERY_STATUS_CODE
  pub query_status : Handle → Sys → Option ℕ × Sys
  pub query_data_available : Handle → Sys → Option ℕ × Sys
  -- WinHttpReadData of so many bytes: the bytes read
  pub read_data : Handle → ℕ → Sys → Option Bytes × Sys
  -- GetLastError
  pub last_error : Sys → ℕ
  -- FormatMessageW, from the module winhttp.dll or from the system
  pub format_message : Bool → ℕ → Option Wide
  -- WINHTTP_ERROR_LAST
  pub winhttp_error_last : ℕ

-- WinHttpReadData never reads more than it is asked for.
abbrev pub ReadsAtMost : WinHttp → Type 0
ReadsAtMost api =
    (h : api.Handle) (n : ℕ) (s : api.Sys) (b : Bytes)
    → (api.read_data h n s).0 ≡ some b
    → length b ≤ n

abbrev pub read_chunk : ℕ
read_chunk = 64 * 1024

abbrev pub error_invalid_handle : ℕ
error_invalid_handle = 6

abbrev pub no_result : HttpResult
no_result = record {
  transport_ok = false;
  win32_error = 0;
  status_code = 0;
  exceeded_limit = false;
  body = [];
}

unfoldable pub request_target : Wide → Wide → Wide
request_target path query = if is_empty query then path else path ++ (codes "?" ++ query)

abbrev pub request_headers : Wide
request_headers = codes "Accept: application/json" ++ (13 ∷ 10 ∷ codes "Cache-Control: no-cache")

unfoldable pub to_read : ℕ → ℕ
to_read available = if ltb available read_chunk then available else read_chunk

module _ (api : WinHttp) where
  open api use {
    Sys, Handle, open_automatic, open_default, set_timeouts, require_modern_tls, connect,
    open_request, send_request, receive_response, query_status, query_data_available, read_data,
    last_error,
  }

  pub record Session : Type 0 where
    pub session : Option Handle
    pub connection : Option Handle
    pub connected_host : Wide
    pub connected_port : ℕ
    pub sys : Sys

  unfoldable pub or_open_default : Option Handle × Sys → Option Handle × Sys
  or_open_default (some h, s) = (some h, s)
  or_open_default (none, s) = open_default s

  -- the constructor of WinHttpClient
  unfoldable pub new_session : Sys → Session
  new_session s =
      let (opened, s1) = or_open_default (open_automatic s) in
      record {
        session = opened;
        connection = none;
        connected_host = [];
        connected_port = 0;
        sys = elim opened [
          | none ↦ s1
          | some h ↦ require_modern_tls h (set_timeouts h 10000 10000 15000 30000 s1)
        ];
      }

  unfoldable pub is_connected_to : Wide → ℕ → Session → Bool
  is_connected_to host port c = elim c.connection [
    | none ↦ false
    | some h ↦ bytes_eq c.connected_host host && c.connected_port == port
  ]

  -- the end of EnsureConnection: a connection that could not be made leaves none
  unfoldable pub set_connection : Wide → ℕ → Session → Option Handle × Sys → Bool × Session
  set_connection host port c (none, s) = (false, record c { connection = none; sys = s })
  set_connection host port c (some h, s) = (
    true,
    record c { connection = some h; connected_host = host; connected_port = port; sys = s },
  )

  unfoldable pub ensure_connection : Handle → Wide → ℕ → Session → Bool × Session
  ensure_connection session host port c =
      if is_connected_to host port c
      then (true, c)
      else set_connection host port c (connect session host port c.sys)

  -- One round of the loop ends it with a result, or goes on with more of the body.
  pub data ReadRound : Type 0 where
    finished : HttpResult → Sys → ReadRound
    again : HttpResult → Sys → ReadRound

  unfoldable pub transport_failed : HttpResult → Sys → ReadRound
  transport_failed r s =
      finished (record r { transport_ok = false; win32_error = last_error s; body = [] }) s

  unfoldable pub after_read : HttpResult → Option Bytes × Sys → ReadRound
  unfolding transport_failed
  after_read r (none, s) = transport_failed r s
  after_read r (some [], s) = finished r s
  after_read r (some (b ∷ bs), s) = again (record r { body = r.body ++ (b ∷ bs) }) s

  unfoldable pub after_query : Handle → ℕ → HttpResult → Option ℕ × Sys → ReadRound
  unfolding after_read transport_failed to_read
  after_query h max_bytes r (none, s) = transport_failed r s
  after_query h max_bytes r (some zero, s) = finished r s
  after_query h max_bytes r (some (suc n), s) =
      if ltb max_bytes (length r.body + to_read (suc n))
      then finished (record r { exceeded_limit = true; body = [] }) s
      else after_read r (read_data h (to_read (suc n)) s)

  unfoldable pub read_round : Handle → ℕ → HttpResult → Sys → ReadRound
  unfolding after_query
  read_round h max_bytes r s = after_query h max_bytes r (query_data_available h s)

  -- The loop over the body, on fuel; `none` where the fuel runs out.
  unfoldable pub read_body : ℕ → Handle → ℕ → HttpResult → Sys → Option (HttpResult × Sys)
  unfolding read_round
  read_body zero h max_bytes r s = none
  read_body (suc fuel) h max_bytes r s = elim (read_round h max_bytes r s) [
    | finished r' s' ↦ some (r', s')
    | again r' s' ↦ read_body fuel h max_bytes r' s'
  ]

  -- where a call failed before any of the body was read
  unfoldable pub request_failed : Sys → HttpResult
  request_failed s = record no_result { win32_error = last_error s }

  unfoldable pub read_answer : ℕ → Handle → ℕ → Option ℕ × Sys → Option (HttpResult × Sys)
  unfolding request_failed read_body
  read_answer fuel request max_bytes (none, s) = some (request_failed s, s)
  read_answer fuel request max_bytes (some status, s) =
      read_body fuel request max_bytes
        (record no_result { transport_ok = true; status_code = status }) s

  unfoldable pub receive : ℕ → Handle → ℕ → Sys → Option (HttpResult × Sys)
  unfolding request_failed read_answer
  receive fuel request max_bytes s =
      let (sent, s1) = send_request request request_headers s in
      let (received, s2) = receive_response request s1 in
      if sent
      then if received
        then read_answer fuel request max_bytes (query_status request s2)
        else some (request_failed s2, s2)
      else some (request_failed s1, s1)

  unfoldable pub send_get : ℕ → ℕ → Option Handle × Sys → Option (HttpResult × Sys)
  unfolding request_failed receive
  send_get fuel max_bytes (none, s) = some (request_failed s, s)
  send_get fuel max_bytes (some request, s) = receive fuel request max_bytes s

  unfoldable pub keep_session : Session → Option (HttpResult × Sys) → Option (HttpResult × Session)
  keep_session c none = none
  keep_session c (some (r, s)) = some (r, record c { sys = s })

  unfoldable pub get_connected : Wide → ℕ → Bool × Session → Option (HttpResult × Session)
  unfolding request_failed
  get_connected target max_bytes (false, c) = some (request_failed c.sys, c)
  get_connected target max_bytes (true, c) = elim c.connection [
    | none ↦ some (request_failed c.sys, c)
    | some connection ↦
        keep_session c (send_get (suc max_bytes) max_bytes (open_request connection target c.sys))
  ]

  -- WinHttpClient::Get. The body has at most `max_bytes` bytes, so that many rounds and one are enough.
  unfoldable pub http_get : Wide → ℕ → Wide → Wide → ℕ → Session → Option (HttpResult × Session)
  unfolding request_target
  http_get host port path query max_bytes c = elim c.session [
    | none ↦ some (record no_result { win32_error = error_invalid_handle }, c)
    | some session ↦
        get_connected (request_target path query) max_bytes (ensure_connection session host port c)
  ]
