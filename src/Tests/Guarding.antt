-- ===== src/Tests/Guarding.antt =====
-- Tests of the secret strings and of the order of dates.
use steam_sales_tray.Shared.{◌≡◌, some, List, [], ◌∷◌, arith}
use steam_sales_tray.Shared.Bytes.{codes, bytes_leb}
use steam_sales_tray.Platform.TimeUtil.{SystemTime, format_steam_date}
use steam_sales_tray.Platform.TimeUtil.Order.{is_until, bytes_leb-format_steam_date}
use steam_sales_tray.Security.SecureString.Wiped.{
  Strings, Operation, converted, moved, text_wiped, assigned, destroyed, run_operations, IsBlank,
  run_operations-IsBlank,
}

abbrev no_strings : Strings
no_strings = record { value = λ i. []; memory = [] }

-- A key is read from a control, moved, replaced and destroyed.
abbrev key_used : List Operation
key_used =
    converted 0 (codes "KEY")
    ∷ text_wiped (codes "KEY")
    ∷ moved 1 0
    ∷ assigned 1 (codes "OTHER")
    ∷ destroyed 1
    ∷ []

run_operations-IsBlank_example :
    IsBlank (λ text. some text) (run_operations (λ text. some text) key_used no_strings).memory
run_operations-IsBlank_example = run_operations-IsBlank (λ text. some text) key_used no_strings tt

abbrev new_year : SystemTime
new_year = record {
  year = 2025;
  month = 1;
  day = 1;
  hour = 0;
  minute = 0;
  second = 0;
  milliseconds = 0;
}

abbrev december : SystemTime
december = record new_year { year = 2024; month = 12; day = 31 }

bytes_leb-format_steam_date_example :
    bytes_leb (format_steam_date december) (format_steam_date new_year) ≡ is_until december new_year
bytes_leb-format_steam_date_example =
    bytes_leb-format_steam_date december new_year
      (record { year = omega arith; month = omega arith; day = omega arith })
      (record { year = omega arith; month = omega arith; day = omega arith })
