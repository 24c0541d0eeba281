-- ===== src/Platform/TimeUtil/Order.antt =====
-- The dates of the Steam API are compared as text: by the range queries of storage/Database.cpp, by
-- the sorting of the dates of a pass and by its backfill cursor.
use mathlib.Core.Path.{ap₂}
use steam_sales_tray.Shared.{
  ℕ, suc, ◌+◌, ◌/◌, ◌%◌, ◌≤◌, ◌<◌, ◌≡◌, refl, ◌∙◌, ap, Bool, Bool-cases, ◌&&◌, ◌||◌, inl, inr, [],
  ◌∷◌, ltb, leb, ◌==◌, arith,
}
use steam_sales_tray.Shared.Bytes.{Bytes, codes, bytes_leb}
use steam_sales_tray.Shared.Decimal.{digits_onto, to_string}
use steam_sales_tray.Platform.TimeUtil.{SystemTime, padded, format_steam_date}

abbrev two_digits : ℕ → Bytes → Bytes
two_digits n rest = (48 + n / 10) ∷ (48 + n % 10) ∷ rest

digits_onto-last :
    (fuel n : ℕ) (rest : Bytes) → n < 10 → digits_onto (suc fuel) n rest ≡ (48 + n) ∷ rest
unfolding digits_onto
digits_onto-last fuel n rest h = ground arith

digits_onto-more :
    (fuel n : ℕ) (rest : Bytes)
    → 10 ≤ n
    → digits_onto (suc fuel) n rest ≡ digits_onto fuel (n / 10) ((48 + n % 10) ∷ rest)
unfolding digits_onto
digits_onto-more fuel n rest h = ground arith

padded-two : (n : ℕ) → n < 100 → padded 2 n ≡ two_digits n []
unfolding padded to_string
padded-two n h = elim (Bool-cases (ltb n 10)) [
  | inl small ↦ rw (digits_onto-last 19 n [] (ground arith)) (ground arith)
  | inr large ↦
      rw
        (
          digits_onto-more 19 n [] (ground arith),
          digits_onto-last 18 (n / 10) ((48 + n % 10) ∷ []) (ground arith),
        )
        (ground arith)
]

abbrev four_digits : ℕ → Bytes → Bytes
four_digits n rest = two_digits (n / 100) (two_digits (n % 100) rest)

to_string-one : (n : ℕ) → n < 10 → to_string n ≡ (48 + n) ∷ []
unfolding to_string
to_string-one n h = digits_onto-last 19 n [] h

to_string-two : (n : ℕ) → 10 ≤ n → n < 100 → to_string n ≡ (48 + n / 10) ∷ (48 + n % 10) ∷ []
unfolding to_string
to_string-two n l h =
    digits_onto-more 19 n [] l ∙ digits_onto-last 18 (n / 10) ((48 + n % 10) ∷ []) (omega arith)

to_string-three :
    (n : ℕ)
    → 100 ≤ n
    → n < 1000
    → to_string n ≡ (48 + n / 100) ∷ (48 + n / 10 % 10) ∷ (48 + n % 10) ∷ []
unfolding to_string
to_string-three n l h =
    let ones = (48 + n % 10) ∷ [] in
    let tens = (48 + n / 10 % 10) ∷ ones in
    digits_onto-more 19 n [] (omega arith)
    ∙ digits_onto-more 18 (n / 10) ones (omega arith)
    ∙ digits_onto-last 17 (n / 10 / 10) tens (omega arith)
    ∙ ap (λ d. (48 + d) ∷ tens) (omega arith)

to_string-four :
    (n : ℕ)
    → 1000 ≤ n
    → n < 10000
    → to_string n ≡ (48 + n / 1000) ∷ (48 + n / 100 % 10) ∷ (48 + n / 10 % 10) ∷ (48 + n % 10) ∷ []
unfolding to_string
to_string-four n l h =
    let ones = (48 + n % 10) ∷ [] in
    let tens = (48 + n / 10 % 10) ∷ ones in
    let hundreds = (48 + n / 10 / 10 % 10) ∷ tens in
    digits_onto-more 19 n [] (omega arith)
    ∙ digits_onto-more 18 (n / 10) ones (omega arith)
    ∙ digits_onto-more 17 (n / 10 / 10) tens (omega arith)
    ∙ digits_onto-last 16 (n / 10 / 10 / 10) hundreds (omega arith)
    ∙ ground arith

padded-four : (n : ℕ) → n < 10000 → padded 4 n ≡ four_digits n []
unfolding padded
padded-four n h = elim (Bool-cases (ltb n 10)) [
  | inl e ↦ rw (to_string-one n (ground arith)) (ground arith)
  | inr e ↦ elim (Bool-cases (ltb n 100)) [
    | inl e' ↦ rw (to_string-two n (ground arith) (ground arith)) (ground arith)
    | inr e' ↦ elim (Bool-cases (ltb n 1000)) [
      | inl e'' ↦ rw (to_string-three n (ground arith) (ground arith)) (ground arith)
      | inr e'' ↦ rw (to_string-four n (ground arith) h) (ground arith)
    ]
  ]
]

-- The order of two numbers first, that of what follows them where they are equal.
bytes_leb-two_digits :
    (m n : ℕ) (s t : Bytes)
    → m < 100
    → n < 100
    → bytes_leb (two_digits m s) (two_digits n t) ≡ (ltb m n || m == n && bytes_leb s t)
unfolding bytes_leb
bytes_leb-two_digits m n s t hm hn = ground arith

-- The fields of a SYSTEMTIME that the calendar allows.
pub record IsCalendar (st : SystemTime) : Type 0 where
  pub year : st.year < 10000
  pub month : st.month < 100
  pub day : st.day < 100

abbrev date_text : SystemTime → Bytes
date_text st = four_digits st.year (47 ∷ two_digits st.month (47 ∷ two_digits st.day []))

format_steam_date-text : (st : SystemTime) → IsCalendar st → format_steam_date st ≡ date_text st
unfolding format_steam_date codes
format_steam_date-text st c =
    rw (padded-four st.year c.year, padded-two st.month c.month, padded-two st.day c.day)

-- Whether a day is not after another, in the calendar.
abbrev pub is_until : SystemTime → SystemTime → Bool
is_until a b =
    ltb a.year b.year
    || a.year == b.year && (ltb a.month b.month || a.month == b.month && leb a.day b.day)

bytes_leb-years :
    (m n : ℕ) (s t : Bytes)
    → m < 10000
    → n < 10000
    → bytes_leb (four_digits m s) (four_digits n t) ≡ (ltb m n || m == n && bytes_leb s t)
bytes_leb-years m n s t hm hn =
    bytes_leb-two_digits (m / 100) (n / 100) _ _ (omega arith) (omega arith)
    ∙ ap (λ b. ltb (m / 100) (n / 100) || m / 100 == n / 100 && b)
        (bytes_leb-two_digits (m % 100) (n % 100) s t (omega arith) (omega arith))
    ∙ ground arith

bytes_leb-slash : (s t : Bytes) → bytes_leb (47 ∷ s) (47 ∷ t) ≡ bytes_leb s t
unfolding bytes_leb
bytes_leb-slash s t = refl

bytes_leb-days :
    (m n : ℕ) → m < 100 → n < 100 → bytes_leb (two_digits m []) (two_digits n []) ≡ leb m n
unfolding bytes_leb
bytes_leb-days m n hm hn = ground arith

bytes_leb-months :
    (m n p q : ℕ)
    → m < 100
    → n < 100
    → p < 100
    → q < 100
    → bytes_leb (two_digits m (47 ∷ two_digits p [])) (two_digits n (47 ∷ two_digits q []))
      ≡ (ltb m n || m == n && leb p q)
bytes_leb-months m n p q hm hn hp hq =
    bytes_leb-two_digits m n (47 ∷ two_digits p []) (47 ∷ two_digits q []) hm hn
    ∙ ap (λ b. ltb m n || m == n && b) (bytes_leb-slash _ _ ∙ bytes_leb-days p q hp hq)

-- The text of a date is not after that of another, byte by byte, exactly when the date is not after
-- the other in the calendar, for years below 10000.
pub bytes_leb-format_steam_date :
    (a b : SystemTime)
    → IsCalendar a
    → IsCalendar b
    → bytes_leb (format_steam_date a) (format_steam_date b) ≡ is_until a b
bytes_leb-format_steam_date a b ca cb =
    ap₂ bytes_leb (format_steam_date-text a ca) (format_steam_date-text b cb)
    ∙ bytes_leb-years a.year b.year _ _ ca.year cb.year
    ∙ ap (λ r. ltb a.year b.year || a.year == b.year && r)
        (bytes_leb-slash _ _
          ∙ bytes_leb-months a.month b.month a.day b.day ca.month cb.month ca.day cb.day)
