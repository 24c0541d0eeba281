-- ===== src/Shared/Word.antt =====
-- The 64-bit integers of the program as bit patterns: a `std::int64_t` is a number below 2 ^ 64 in
-- two's complement, and a sum wraps.
use Prim.Native.Nat.{ℕ, ◌+◌, ◌-◌, ◌%◌, ◌^◌}
use mathlib.Core.Bool.{Bool}
use steam_sales_tray.Shared.Tests.{leb}

abbrev pub Int64 : Type 0
Int64 = ℕ

abbrev pub word_mod : ℕ
word_mod = 2 ^ 64

abbrev pub sign_bit : ℕ
sign_bit = 2 ^ 63

abbrev pub add64 : Int64 → Int64 → Int64
add64 a b = (a + b) % word_mod

abbrev pub sub64 : Int64 → Int64 → Int64
sub64 a b = (a + word_mod - b) % word_mod

abbrev pub is_negative : Int64 → Bool
is_negative a = leb sign_bit a
