-- ===== src/Security/SecureString.antt =====
-- security/SecureString.cpp: strings whose memory is overwritten before it is given back. A
-- std::string is the bytes of its buffer, none where it has no buffer; a Memory is the blocks that
-- were given back, each with the bytes it had then. Strings that are kept inside the std::string
-- itself, which the header of the source excepts, have no buffer of their own here.
pub mod Wiped
use steam_sales_tray.Shared.{
  ℕ, zero, suc, ◌*◌, ◌==◌, Bool, true, false, not, Option, none, some, List, [], ◌∷◌, ◌++◌,
  is_empty, length, if◌then◌else◌,
}
use steam_sales_tray.Shared.Bytes.{Bytes, Wide}

abbrev pub Memory : Type 0
Memory = List Bytes

abbrev pub zeros : ℕ → Bytes
zeros zero = []
zeros (suc n) = 0 ∷ zeros n

-- A buffer is given back with what it holds; an empty string has none.
unfoldable pub give_back : Bytes → Memory → Memory
give_back buffer m = if is_empty buffer then m else buffer ∷ m

-- SecureZeroMemory of the whole string, where there is something in it
unfoldable pub secure_zero : Bytes → Bytes
secure_zero buffer = if not (is_empty buffer) then zeros (length buffer) else buffer

-- Wipe: the bytes are overwritten, and clear and shrink_to_fit give the buffer back
unfoldable pub wipe : Bytes → Memory → Bytes × Memory
unfolding secure_zero give_back
wipe value m = ([], give_back (secure_zero value) m)

-- value_.assign on the string that Wipe has left empty
unfoldable pub assign : Bytes → Bytes → Memory → Bytes × Memory
unfolding wipe
assign chars value m = let (emptied, m') = wipe value m in (chars, m')

-- the move constructor: the new string, the old one after it
unfoldable pub move_construct : Bytes → Memory → Bytes × Bytes × Memory
unfolding wipe
move_construct other m = let value = other in let (emptied, m') = wipe [] m in (value, emptied, m')

-- the move assignment of another string; `same` is `this == &other`
unfoldable pub move_assign : Bool → Bytes → Bytes → Memory → Bytes × Bytes × Memory
unfolding wipe
move_assign same value other m =
    let (emptied, m1) = wipe value m in
    let (left, m2) = wipe [] m1 in if not same then (other, left, m2) else (value, other, m)

-- the destructor
unfoldable pub destroy : Bytes → Memory → Memory
unfolding wipe
destroy value m = (wipe value m).1

-- the second call of WideCharToMultiByte and what follows it; the std::vector of the conversion is
-- given back at the end
unfoldable pub keep_converted : Option Bytes → Memory → Bytes × Memory
unfolding assign secure_zero give_back
keep_converted none m = ([], m)
keep_converted (some buffer) m =
    let (result, m') = assign buffer [] m in (result, give_back (secure_zero buffer) m')

-- WideToSecureUtf8 with WideCharToMultiByte, none where it needs no bytes
unfoldable pub wide_to_secure_utf8 : (Wide → Option Bytes) → Wide → Memory → Bytes × Memory
unfolding keep_converted
wide_to_secure_utf8 convert text m =
    if is_empty text then ([], m) else keep_converted (convert text) m

-- WipeWString: two bytes for each unit
unfoldable pub wipe_wstring : Wide → Memory → Wide × Memory
unfolding give_back
wipe_wstring text m =
    ([], give_back (if not (is_empty text) then zeros (length text * 2) else []) m)
