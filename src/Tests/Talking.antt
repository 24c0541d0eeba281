-- ===== src/Tests/Talking.antt =====
-- Tests of network/WinHttpClient.cpp and platform/.
use steam_sales_tray.Shared.{
  ℕ, zero, suc, ◌≡◌, ◌≤◌, refl, true, Option, none, some, List, [], ◌∷◌, ◌++◌, length, take, arith,
}
use steam_sales_tray.Shared.Bytes.{Bytes, Wide, codes, bytes_eq}
use steam_sales_tray.Network.WinHttpClient.{
  WinHttp, ReadsAtMost, Session, http_get, get_connected, ensure_connection, is_connected_to,
  set_connection, send_get, receive, read_answer, read_body, read_round, after_query, after_read,
  keep_session, request_target, to_read,
}
use steam_sales_tray.Network.WinHttpClient.Answer.{IsAnswered, http_get-answers}
use steam_sales_tray.Network.WinHttpClient.Transports.{
  win_http_transport, IsSuccess, is_valid_session, or_no_result, get_changed_dates-delivered,
}
use steam_sales_tray.Steam.Json.{parsed_ok, parse_changed_dates, read_response}
use steam_sales_tray.Steam.Client.{
  HttpResult, is_ok, get_changed_dates, max_changed_dates, classify, classify_status, refine,
}
use steam_sales_tray.Platform.Logging.{
  is_delimiter, key_needle, redact_secrets, LogFiles, warn, write_log,
}
use steam_sales_tray.Platform.Logging.Redaction.{start, scan, redact_secrets-scan, write_log-hides}
use steam_sales_tray.Platform.StartupManager.{
  RunKey, RunKeyLaws, reg_sz, is_enabled, enable, is_enabled-enable, build_command,
}
use steam_sales_tray.Tests.Data.{json}

-- the bytes of the first piece, if there is one
abbrev first_of : List Bytes → Bytes
first_of [] = []
first_of (b ∷ bs) = b

abbrev rest_of : List Bytes → List Bytes
rest_of [] = []
rest_of (b ∷ bs) = bs

-- A server whose answer comes in pieces, and no call fails.
abbrev wire : WinHttp
wire = record {
  Sys = List Bytes;
  Handle = ℕ;
  open_automatic = λ s. (some 1, s);
  open_default = λ s. (some 1, s);
  set_timeouts = λ h a b c d s. s;
  require_modern_tls = λ h s. s;
  connect = λ h host port s. (some 2, s);
  open_request = λ h target s. (some 3, s);
  send_request = λ h headers s. (true, s);
  receive_response = λ h s. (true, s);
  query_status = λ h s. (some 200, s);
  query_data_available = λ h s. (some (length (first_of s)), s);
  read_data = λ h n s. (some (take n (first_of s)), rest_of s);
  last_error = λ s. 0;
  format_message = λ from_module code. none;
  winhttp_error_last = 12188;
}

length-take : (n : ℕ) (b : Bytes) → length (take n b) ≤ n
length-take zero b = omega arith
length-take (suc n) [] = omega arith
length-take (suc n) (c ∷ b) = omega (arith, length-take n b)

wire-ReadsAtMost : ReadsAtMost wire
wire-ReadsAtMost h n s b e = rw (← some_eq e) (length-take n (first_of s))
  where
    some_eq : {x y : Bytes} → some x ≡ some y → x ≡ y
    some_eq e = ground (arith, e)

abbrev opened : Session wire
opened = record {
  session = some 1;
  connection = none;
  connected_host = [];
  connected_port = 0;
  sys = (1 ∷ 2 ∷ []) ∷ (3 ∷ []) ∷ [];
}

http_get-answers_example :
    IsAnswered wire 100 (http_get wire (codes "host") 443 (codes "/") [] 100 opened)
http_get-answers_example =
    http_get-answers wire (codes "host") 443 (codes "/") [] 100 opened wire-ReadsAtMost

dates-are_read :
    is_ok (get_changed_dates json (win_http_transport wire) (codes "KEY") (codes "41") opened).0
    ≡ true
unfolding get_changed_dates is_ok codes is_valid_session or_no_result http_get classify
    classify_status refine parse_changed_dates ensure_connection is_connected_to set_connection
    get_connected keep_session send_get receive read_answer read_body read_round after_query
    after_read to_read bytes_eq parsed_ok request_target read_response
dates-are_read = refl

get_changed_dates-delivered_example :
    let result =
      get_changed_dates json (win_http_transport wire) (codes "KEY") (codes "41") opened in
    (http : HttpResult) × IsSuccess wire max_changed_dates http result.2
    × (parsed_ok (parse_changed_dates json http.body).0 ≡ true)
    × (result.1 ≡ (parse_changed_dates json http.body).1)
get_changed_dates-delivered_example =
    get_changed_dates-delivered wire json (codes "KEY") (codes "41") opened wire-ReadsAtMost
      dates-are_read

redact_secrets-scan_example :
    redact_secrets (codes "GET /?key=ABC&x=1") ≡ some (scan start (codes "GET /?key=ABC&x=1"))
redact_secrets-scan_example = redact_secrets-scan (codes "GET /?key=ABC&x=1")

-- Files of which only the text of the log is kept.
abbrev log_files : LogFiles
log_files = record {
  Disk = Bytes;
  size = λ path d. some (length d);
  delete = λ path d. d;
  move = λ source target d. [];
  append = λ path text d. d ++ text;
  get_log_path = codes "app.log";
  utf8_to_wide = λ s. s;
  wide_to_utf8 = λ s. s;
}

write_log-hides_example :
    (after : Wide × Bytes) × (write_log log_files
        (codes "T")
        warn
        (codes "Sync")
        (codes "url?" ++ (key_needle ++ ((65 ∷ 66 ∷ []) ++ codes "&x=1")))
        ([], [])
      ≡ some after)
    × (write_log log_files
          (codes "T")
          warn
          (codes "Sync")
          (codes "url?" ++ (key_needle ++ ((67 ∷ []) ++ codes "&x=1")))
          ([], [])
        ≡ some after)
unfolding is_delimiter
write_log-hides_example =
    write_log-hides log_files (codes "T") warn (codes "Sync") (codes "url?") (65 ∷ 66 ∷ [])
      (67 ∷ []) (codes "&x=1") [] [] (refl, (refl, tt)) (refl, tt)

-- A Run key with one value.
abbrev pub run_key : RunKey
run_key = record {
  Hive = Option Wide;
  opens_to_query = λ h. true;
  opens_to_set = λ h. true;
  query = λ h. elim h [ none ↦ none | some v ↦ some (reg_sz, v) ];
  create = λ h. (true, h);
  set = λ v h. (true, some v);
  delete = λ h. (true, none);
}

run_key-laws : RunKeyLaws run_key
run_key-laws = record { opens_after_set = λ v h e. refl; query_after_set = λ v h e. refl }

enables : (enable run_key (codes "C:\\tray.exe") none).0 ≡ true
unfolding enable build_command codes
enables = refl

is_enabled-enable_example :
    is_enabled run_key (codes "C:\\tray.exe") (enable run_key (codes "C:\\tray.exe") none).1 ≡ true
is_enabled-enable_example =
    is_enabled-enable run_key (codes "C:\\tray.exe") none run_key-laws enables
