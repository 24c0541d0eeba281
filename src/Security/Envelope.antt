-- ===== src/Security/Envelope.antt =====
-- security/DpapiSecretStore.cpp: the format of the key file, 4 bytes of magic, the version, a
-- reserved field, the length and the blob, and that reading undoes writing. The code reads at
-- offsets inside a buffer whose size it has checked.
use steam_sales_tray.Shared.{
  ℕ, zero, suc, ◌+◌, ◌*◌, ◌/◌, ◌%◌, ◌^◌, ◌≤◌, ◌<◌, ◌≡◌, Bool, true, not, ◌&&◌, ◌||◌, Option, none,
  some, List, [], ◌∷◌, ◌++◌, length, drop, take, ltb, ◌==◌, if◌then◌else◌, arith,
}
use steam_sales_tray.Shared.Bytes.{Bytes, bytes_eq}

abbrev pub magic : Bytes
magic = b'S' ∷ b'S' ∷ b'T' ∷ b'K' ∷ []

abbrev pub format_version : ℕ
format_version = 1

abbrev pub header_size : ℕ
header_size = 12

abbrev pub max_blob_bytes : ℕ
max_blob_bytes = 2 ^ 20

-- `value & 0xFF` and the like, on a uint16_t and a uint32_t
unfoldable pub store_u16 : ℕ → Bytes
store_u16 value = value % 256 ∷ value / 2 ^ 8 % 256 ∷ []

unfoldable pub store_u32 : ℕ → Bytes
store_u32 value =
    value % 256 ∷ value / 2 ^ 8 % 256 ∷ value / 2 ^ 16 % 256 ∷ value / 2 ^ 24 % 256 ∷ []

abbrev pub byte_at : Bytes → ℕ → ℕ
byte_at [] i = 0
byte_at (b ∷ bs) zero = b
byte_at (b ∷ bs) (suc i) = byte_at bs i

-- The bytes are below 256, and the parts of the `|` have no bit in common.
unfoldable pub load_u16 : Bytes → ℕ
load_u16 p = byte_at p 0 + byte_at p 1 * 2 ^ 8

unfoldable pub load_u32 : Bytes → ℕ
load_u32 p = byte_at p 0 + byte_at p 1 * 2 ^ 8 + byte_at p 2 * 2 ^ 16 + byte_at p 3 * 2 ^ 24

-- what Store writes
unfoldable pub envelope : Bytes → Bytes
unfolding store_u16 store_u32
envelope blob =
    magic ++ (store_u16 format_version ++ (store_u16 0 ++ (store_u32 (length blob) ++ blob)))

-- the checks that HasStoredKey makes
unfoldable pub has_header : Bytes → Bool
unfolding load_u16
has_header file =
    not (ltb (length file) header_size)
    && bytes_eq (take 4 file) magic
    && load_u16 (drop 4 file) == format_version

-- the checks that Load makes, and the blob
unfoldable pub open_envelope : Bytes → Option Bytes
unfolding load_u16 load_u32
open_envelope file =
    let size = load_u32 (drop 8 file) in
    if ltb (length file) header_size
    then none
    else if not (bytes_eq (take 4 file) magic)
    then none
    else if not (load_u16 (drop 4 file) == format_version)
    then none
    else if size == 0 || ltb max_blob_bytes size || not (length file == header_size + size)
    then none
    else some (drop header_size file)

load_u32-store_u32 : (n : ℕ) (rest : Bytes) → n < 2 ^ 32 → load_u32 (store_u32 n ++ rest) ≡ n
unfolding load_u32 store_u32
load_u32-store_u32 n rest h = omega arith

pub length-envelope : (blob : Bytes) → length (envelope blob) ≡ header_size + length blob
unfolding envelope store_u16 store_u32
length-envelope blob = omega arith

-- A file that Store writes is opened, and gives back the blob, for every blob whose size is not 0
-- and at most 1 MB.
pub open_envelope-envelope :
    (blob : Bytes)
    → 0 < length blob
    → length blob ≤ max_blob_bytes
    → open_envelope (envelope blob) ≡ some blob
unfolding open_envelope envelope bytes_eq load_u16 store_u32
open_envelope-envelope blob some_bytes bound =
    ground (arith, load_u32-store_u32 (length blob) blob (omega arith))

length-drop :
    {A : Type 0} (n : ℕ) (xs : List A) → n ≤ length xs → n + length (drop n xs) ≡ length xs
length-drop zero xs h = omega arith
length-drop (suc n) [] h = omega arith
length-drop (suc n) (x ∷ xs) h = omega (arith, length-drop n xs (omega arith))

-- Load opens only files that HasStoredKey accepts, and only blobs that are not empty, at most 1 MB,
-- and as long as the rest of the file.
pub open_envelope-has_header :
    (file blob : Bytes)
    → open_envelope file ≡ some blob
    → (has_header file ≡ true)
      × (0 < length blob)
      × (length blob ≤ max_blob_bytes)
      × (length file ≡ header_size + length blob)
unfolding open_envelope has_header
open_envelope-has_header file blob h = ground (arith, length-drop header_size file)
