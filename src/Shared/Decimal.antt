-- ===== src/Shared/Decimal.antt =====
-- Numbers as text: `std::to_string` and `std::to_wstring` for the integers of the program.
use steam_sales_tray.Shared.Tests.{ltb, if◌then◌else◌}
use steam_sales_tray.Shared.Bytes.{Bytes}
use steam_sales_tray.Shared.Word.{Int64, word_mod, is_negative}
use Prim.Native.Nat.{ℕ, zero, suc, ◌+◌, ◌-◌, ◌/◌, ◌%◌}
use mathlib.Core.List.{[], ◌∷◌}

-- The digits of a number in front of `rest`. The fuel bounds the number of digits.
unfoldable pub digits_onto : ℕ → ℕ → Bytes → Bytes
digits_onto zero n rest = rest
digits_onto (suc fuel) n rest =
    let digit = b'0' + n % 10 in
    let more = digits_onto fuel (n / 10) (digit ∷ rest) in if ltb n 10 then digit ∷ rest else more

-- 20 digits are enough for every number below 2 ^ 64.
unfoldable pub to_string : ℕ → Bytes
unfolding digits_onto
to_string n = digits_onto 20 n []

unfoldable pub to_string_signed : Int64 → Bytes
unfolding to_string
to_string_signed a = if is_negative a then b'-' ∷ to_string (word_mod - a) else to_string a
