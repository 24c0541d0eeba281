-- ===== src/Steam/Json/Numbers.antt =====
-- `std::strtoll` in base 10, of the C library, as steam/SteamJsonParser.cpp uses it for numbers that
-- the API returns as strings.
use steam_sales_tray.Shared.{
  ℕ, ◌+◌, ◌-◌, ◌*◌, ◌%◌, Bool, ◌&&◌, ◌||◌, [], ◌∷◌, ltb, leb, ◌==◌, if◌then◌else◌,
}
use steam_sales_tray.Shared.Bytes.{Bytes}
use steam_sales_tray.Shared.Word.{Int64, word_mod, sign_bit}

unfoldable pub is_space : ℕ → Bool
is_space c = leb 9 c && leb c 13 || c == 32

unfoldable pub skip_spaces : Bytes → Bytes
skip_spaces [] = []
skip_spaces (c ∷ s) = if is_space c then skip_spaces s else c ∷ s

unfoldable pub is_digit : ℕ → Bool
is_digit c = leb b'0' c && leb c b'9'

-- the digits in front of the text, as a number of any size
unfoldable pub read_digits : ℕ → Bytes → ℕ
read_digits n [] = n
read_digits n (c ∷ s) =
    let more = read_digits (n * 10 + (c - b'0')) s in if is_digit c then more else n

-- LLONG_MAX and LLONG_MIN for what does not fit
unfoldable pub clamp_positive : ℕ → Int64
clamp_positive n = if ltb n sign_bit then n else sign_bit - 1

unfoldable pub clamp_negative : ℕ → Int64
clamp_negative n = if ltb sign_bit n then sign_bit else (word_mod - n) % word_mod

unfoldable pub signed_digits : Bytes → Int64
unfolding clamp_positive clamp_negative
signed_digits [] = 0
signed_digits (c ∷ s) =
    if c == b'-'
    then clamp_negative (read_digits 0 s)
    else if c == b'+'
    then clamp_positive (read_digits 0 s)
    else clamp_positive (read_digits 0 (c ∷ s))

unfoldable pub strtoll : Bytes → Int64
unfolding signed_digits
strtoll s = signed_digits (skip_spaces s)
