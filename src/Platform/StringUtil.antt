-- ===== src/Platform/StringUtil.antt =====
-- platform/StringUtil.cpp: `FormatThousands`, and the conversions, over MultiByteToWideChar and
-- WideCharToMultiByte for UTF-8: what they write, or none where they need nothing or fail.
use steam_sales_tray.Shared.{
  Option, none, some, is_empty, ℕ, suc, ◌-◌, ◌%◌, not, ◌&&◌, [], ◌∷◌, ◌++◌, ◌==◌, if◌then◌else◌,
}
use steam_sales_tray.Shared.Bytes.{Bytes, Wide}
use steam_sales_tray.Shared.Word.{Int64, word_mod, is_negative}
use steam_sales_tray.Shared.Decimal.{to_string}
use mathlib.Core.List.{reverse}

-- the loop over the reversed digits: a comma in front of each third digit but the first
unfoldable pub group_from : ℕ → Bytes → Wide
group_from count [] = []
group_from count (d ∷ digits) =
    let rest = d ∷ group_from (suc count) digits in
    if not (count == 0) && count % 3 == 0 then b',' ∷ rest else rest

unfoldable pub magnitude : Int64 → ℕ
magnitude value = if is_negative value then word_mod - value else value

unfoldable pub format_thousands : Int64 → Wide
unfolding group_from magnitude
format_thousands value =
    let grouped = group_from 0 (reverse (to_string (magnitude value))) in
    reverse (if is_negative value then grouped ++ b'-' ∷ [] else grouped)

pub record CodePage : Type 0 where
  pub to_wide : Bytes → Option Wide
  pub to_utf8 : Wide → Option Bytes

unfoldable pub converted : Option Bytes → Bytes
converted none = []
converted (some text) = text

unfoldable pub utf8_to_wide : CodePage → Bytes → Wide
unfolding converted
utf8_to_wide page utf8 = if is_empty utf8 then [] else converted (page.to_wide utf8)

unfoldable pub wide_to_utf8 : CodePage → Wide → Bytes
unfolding converted
wide_to_utf8 page wide = if is_empty wide then [] else converted (page.to_utf8 wide)
