-- ===== src/Platform/Logging.antt =====
-- platform/Logging.cpp: the redaction of keys, and a line of the log with the rotation of its file.
-- The file calls of Win32, the path and the conversions of strings are parameters; the mutex, which
-- keeps lines apart, is left out.
pub mod Redaction
use mathlib.Core.Option
use steam_sales_tray.Shared.{
  ℕ, zero, suc, ◌*◌, Bool, true, false, ◌&&◌, ◌||◌, Option, none, some, List, [], ◌∷◌, ◌++◌, length,
  drop, is_empty, ltb, ◌==◌, if◌then◌else◌,
}
use steam_sales_tray.Shared.Bytes.{Bytes, Wide, codes}

unfoldable pub starts_with : Wide → Wide → Bool
starts_with [] text = true
starts_with (p ∷ ps) [] = false
starts_with (p ∷ ps) (c ∷ text) = p == c && starts_with ps text

-- wstring::find: the text before the first occurrence of a needle, and the text after it
unfoldable pub find_split : Wide → Wide → Option (Wide × Wide)
unfolding starts_with
find_split needle [] = none
find_split needle (c ∷ text) =
    let later : Option (Wide × Wide) = elim (find_split needle text) [
      | none ↦ none
      | some (before, after) ↦ some (c ∷ before, after)
    ] in
    if starts_with needle (c ∷ text) then some ([], drop (length needle) (c ∷ text)) else later

-- one of "& \t\r\n\"'", which end the value of a key
unfoldable pub is_delimiter : ℕ → Bool
is_delimiter c =
    c == b'&' || (c == b' ' || (c == 9 || (c == 13 || (c == 10 || (c == 34 || c == 39)))))

-- from the end of the value on
unfoldable pub value_end : Wide → Wide
unfolding is_delimiter
value_end [] = []
value_end (c ∷ text) = let rest = value_end text in if is_delimiter c then c ∷ text else rest

abbrev pub key_needle : Wide
key_needle = b'k' ∷ b'e' ∷ b'y' ∷ b'=' ∷ []

-- The loop of RedactSecrets on fuel: `done` is the text before `pos`, `text` the rest of it.
unfoldable pub redact_loop : ℕ → Wide → Wide → Option Wide
unfolding find_split value_end codes
redact_loop zero done text = none
redact_loop (suc fuel) done text = elim (find_split key_needle text) [
  | none ↦ some (done ++ text)
  | some (before, after) ↦
      redact_loop fuel (done ++ (before ++ (key_needle ++ codes "REDACTED"))) (value_end after)
]

-- Each round leaves a shorter text, so one round more than its length is enough.
unfoldable pub redact_secrets : Wide → Option Wide
unfolding redact_loop
redact_secrets text = redact_loop (suc (length text)) [] text

pub data LogLevel : Type 0 where
  info warn error : LogLevel

unfoldable pub level_name : LogLevel → Wide
level_name info = codes "INFO "
level_name warn = codes "WARN "
level_name error = codes "ERROR"

abbrev pub max_log_bytes : ℕ
max_log_bytes = 1024 * 1024

-- The calls that keep the file, and what a line is made with.
pub record LogFiles : Type 1 where
  pub Disk : Type 0
  -- the size of GetFileAttributesExW, where it succeeds
  pub size : Wide → Disk → Option ℕ
  pub delete : Wide → Disk → Disk
  -- MoveFileW
  pub move : Wide → Wide → Disk → Disk
  -- CreateFileW with FILE_APPEND_DATA and OPEN_ALWAYS, then WriteFile
  pub append : Wide → Bytes → Disk → Disk
  pub get_log_path : Wide
  pub utf8_to_wide : Bytes → Wide
  pub wide_to_utf8 : Wide → Bytes

module _ (files : LogFiles) where
  unfoldable pub file_size_or_zero : Wide → files.Disk → ℕ
  file_size_or_zero path d = elim (files.size path d) [ none ↦ 0 | some n ↦ n ]

  unfoldable pub rotate_if_needed : Wide → files.Disk → files.Disk
  unfolding file_size_or_zero
  rotate_if_needed path d =
      let rotated = path ++ codes ".1" in
      if ltb (file_size_or_zero path d) max_log_bytes
      then d
      else files.move path rotated (files.delete rotated d)

  unfoldable pub resolve_path : Wide → Wide
  resolve_path path = if is_empty path then files.get_log_path else path

  -- Log::Init, under the lock
  unfoldable pub init_log : Wide → Wide × files.Disk → Wide × files.Disk
  init_log path (old, d) = (path, d)

  unfoldable pub log_line : Bytes → LogLevel → Wide → Wide → Wide
  unfolding level_name
  log_line time level component redacted =
      files.utf8_to_wide time
      ++ (codes " "
          ++ (level_name level
              ++ (codes " " ++ (component ++ (codes " " ++ (redacted ++ (13 ∷ 10 ∷ [])))))))

  -- Log::Write after the redaction, under the lock
  unfoldable pub write_line : Bytes → LogLevel → Wide → Wide × files.Disk → Wide → Wide × files.Disk
  unfolding resolve_path rotate_if_needed log_line
  write_line time level component (path, d) redacted =
      let resolved = resolve_path path in
      let line = files.wide_to_utf8 (log_line time level component redacted) in
      if is_empty resolved
      then (resolved, d)
      else (resolved, files.append resolved line (rotate_if_needed resolved d))

  -- Log::Write; `path` is g_path, `time` of UtcNowIso8601
  unfoldable pub write_log :
      Bytes → LogLevel → Wide → Wide → Wide × files.Disk → Option (Wide × files.Disk)
  unfolding redact_secrets
  write_log time level component message w =
      Option.map (write_line time level component w) (redact_secrets message)
