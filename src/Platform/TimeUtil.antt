-- ===== src/Platform/TimeUtil.antt =====
-- platform/TimeUtil.cpp: dates of the Steam API and ages of timestamps. A SYSTEMTIME is a record of
-- 16-bit fields, a FILETIME the 64-bit number of its ticks. The clocks and conversions of Win32 and
-- sscanf are parameters.
pub mod Order
use steam_sales_tray.Shared.{
  ℕ, ◌+◌, ◌-◌, ◌*◌, ◌/◌, ◌%◌, ◌^◌, zero, suc, Bool, Option, none, some, [], ◌∷◌, ◌++◌, length, take,
  ltb, if◌then◌else◌,
}
use steam_sales_tray.Shared.Bytes.{Bytes, codes}
use steam_sales_tray.Shared.Decimal.{to_string}

pub record SystemTime : Type 0 where
  pub year : ℕ
  pub month : ℕ
  pub day : ℕ
  pub hour : ℕ
  pub minute : ℕ
  pub second : ℕ
  pub milliseconds : ℕ

-- Six unsigned numbers, as sscanf reads them.
pub record Scanned : Type 0 where
  pub y : ℕ
  pub mo : ℕ
  pub d : ℕ
  pub h : ℕ
  pub mi : ℕ
  pub s : ℕ

pub record Clock : Type 0 where
  -- GetSystemTime, and GetLocalTime
  pub utc : SystemTime
  pub local : SystemTime
  -- GetPacificTimeZone and SystemTimeToTzSpecificLocalTimeEx of that zone
  pub has_pacific_zone : Bool
  pub to_pacific : SystemTime → Option SystemTime
  pub to_file_time : SystemTime → Option ℕ
  pub to_system_time : ℕ → Option SystemTime
  -- sscanf with "%u-%u-%uT%u:%u:%uZ", where it reads all six
  pub scan : Bytes → Option Scanned

abbrev pub very_old : ℕ
very_old = 1_000_000_000

abbrev pub ticks_per_day : ℕ
ticks_per_day = 864_000_000_000

abbrev zeros : ℕ → Bytes
zeros zero = []
zeros (suc n) = b'0' ∷ zeros n

-- "%0<width>u"
unfoldable pub padded : ℕ → ℕ → Bytes
padded width n = let text = to_string n in zeros (width - length text) ++ text

-- into a buffer of 16 bytes, the last of them 0
unfoldable pub format_steam_date : SystemTime → Bytes
format_steam_date st =
    take 15
      (padded 4 st.year ++ (codes "/" ++ (padded 2 st.month ++ (codes "/" ++ padded 2 st.day))))

module _ (clock : Clock) where
  unfoldable pub pacific_now : SystemTime
  pacific_now =
      if clock.has_pacific_zone
      then elim (clock.to_pacific clock.utc) [ none ↦ clock.local | some pacific ↦ pacific ]
      else clock.local

  -- into a buffer of 32 bytes
  unfoldable pub utc_now_iso8601 : Bytes
  utc_now_iso8601 =
      let st = clock.utc in
      take 31 (
        padded 4 st.year
        ++ (codes "-"
            ++ (padded 2 st.month
                ++ (codes "-"
                    ++ (padded 2 st.day
                        ++ (codes "T"
                            ++ (padded 2 st.hour
                                ++ (codes ":"
                                    ++ (padded 2 st.minute
                                        ++ (codes ":" ++ (padded 2 st.second ++ codes "Z")))))))))))

  unfoldable pub steam_today : Bytes
  steam_today = format_steam_date pacific_now

  -- the casts to WORD
  unfoldable pub scanned_time : Scanned → SystemTime
  scanned_time s = record {
    year = s.y % 2 ^ 16;
    month = s.mo % 2 ^ 16;
    day = s.d % 2 ^ 16;
    hour = s.h % 2 ^ 16;
    minute = s.mi % 2 ^ 16;
    second = s.s % 2 ^ 16;
    milliseconds = 0;
  }

  unfoldable pub seconds_between : ℕ → ℕ → ℕ
  seconds_between past now = if ltb now past then 0 else (now - past) / 10_000_000

  unfoldable pub seconds_since_utc : Bytes → ℕ
  seconds_since_utc iso8601 = elim (clock.scan iso8601) [
    | none ↦ very_old
    | some s ↦ elim (clock.to_file_time (scanned_time s)) [
      | none ↦ very_old
      | some past ↦ elim (clock.to_file_time clock.utc) [
        | none ↦ very_old
        | some now ↦ seconds_between past now
      ]
    ]
  ]

  unfoldable pub midnight : SystemTime → SystemTime
  midnight st = record st { hour = 0; minute = 0; second = 0; milliseconds = 0 }

  -- of a number of days that is not negative; the subtraction wraps
  unfoldable pub steam_date_days_ago : ℕ → Bytes
  steam_date_days_ago days =
      let st = midnight pacific_now in
      elim (clock.to_file_time st) [
        | none ↦ format_steam_date st
        | some v ↦
            elim (clock.to_system_time ((v + 2 ^ 64 - days * ticks_per_day % 2 ^ 64) % 2 ^ 64)) [
              | none ↦ format_steam_date st
              | some result ↦ format_steam_date result
            ]
      ]
