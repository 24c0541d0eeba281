-- ===== src/Network/UrlEncoder.antt =====
-- network/UrlEncoder.cpp: percent-encoding of the bytes of a UTF-8 string, and that it can be undone.
use mathlib.Core.Path.{ap₂, ◌∙◌}
use steam_sales_tray.Shared.{
  ℕ, ◌+◌, ◌-◌, ◌*◌, ◌/◌, ◌%◌, ◌<◌, ◌≡◌, refl, inl, inr, Bool, true, false, ◌&&◌, ◌||◌, [], ◌∷◌, All,
  ltb, leb, ◌==◌, if◌then◌else◌, arith, Bool-cases, ap,
}
use steam_sales_tray.Shared.Bytes.{Bytes, Wide}
use steam_sales_tray.Platform.StringUtil.{CodePage, wide_to_utf8}

unfoldable pub is_unreserved : ℕ → Bool
is_unreserved c =
    leb b'A' c && leb c b'Z'
    || leb b'a' c && leb c b'z'
    || leb b'0' c && leb c b'9'
    || c == b'-'
    || c == b'_'
    || c == b'.'
    || c == b'~'

unfoldable pub hex_digit : ℕ → ℕ
hex_digit value = if ltb value 10 then b'0' + value else b'A' + (value - 10)

-- `c >> 4` and `c & 0x0F` of a byte
unfoldable pub encode_component : Bytes → Wide
encode_component [] = []
encode_component (c ∷ rest) =
    if is_unreserved c
    then c ∷ encode_component rest
    else b'%' ∷ hex_digit (c / 16) ∷ hex_digit (c % 16) ∷ encode_component rest

-- the overload for UTF-16, over WideCharToMultiByte
unfoldable pub encode_wide_component : CodePage → Wide → Wide
unfolding encode_component wide_to_utf8
encode_wide_component page value = encode_component (wide_to_utf8 page value)

unfoldable pub hex_value : ℕ → ℕ
hex_value d = if leb b'A' d then d - b'A' + 10 else d - b'0'

-- The decoder of a URL query.
unfoldable pub decode_component : Wide → Bytes
decode_component [] = []
decode_component (c ∷ []) = c ∷ []
decode_component (c ∷ d ∷ []) = c ∷ d ∷ []
decode_component (c ∷ d ∷ e ∷ rest) =
    let plain = c ∷ decode_component (d ∷ e ∷ rest) in
    let coded = (hex_value d * 16 + hex_value e) ∷ decode_component rest in
    if c == b'%' then coded else plain

hex_value-hex_digit : (v : ℕ) → v < 16 → hex_value (hex_digit v) ≡ v
unfolding hex_value hex_digit
hex_value-hex_digit v h = ground arith

-- What an encoded string is made of.
pub is_query_safe : ℕ → Bool
unfolding is_unreserved
is_query_safe c = is_unreserved c || c == b'%'

hex_digit-safe : (v : ℕ) → v < 16 → is_query_safe (hex_digit v) ≡ true
unfolding is_query_safe hex_digit
hex_digit-safe v h = ground arith

percent_reserved : (c : ℕ) → is_unreserved c ≡ true → (c == b'%') ≡ false
unfolding is_unreserved
percent_reserved c h = ground arith

decode_plain :
    (c : ℕ) (xs : Wide) → (c == b'%') ≡ false → decode_component (c ∷ xs) ≡ c ∷ decode_component xs
unfolding decode_component
decode_plain c [] h = refl
decode_plain c (d ∷ []) h = refl
decode_plain c (d ∷ e ∷ xs) h = rw h

decode_coded :
    (v : ℕ) (w : ℕ) (xs : Wide)
    → v < 16
    → w < 16
    → decode_component (b'%' ∷ hex_digit v ∷ hex_digit w ∷ xs) ≡ (v * 16 + w) ∷ decode_component xs
unfolding decode_component
decode_coded v w xs hv hw = rw (hex_value-hex_digit v hv, hex_value-hex_digit w hw) refl

percent-safe : is_query_safe b'%' ≡ true
unfolding is_query_safe
percent-safe = refl

unreserved-safe : (c : ℕ) → is_unreserved c ≡ true → is_query_safe c ≡ true
unfolding is_query_safe
unreserved-safe c h = ground arith

-- Decoding a percent-encoded string of bytes gives the string back.
pub decode_component-encode_component :
    (s : Bytes) → All (λ b. b < 256) s → decode_component (encode_component s) ≡ s
unfolding encode_component
decode_component-encode_component [] h = unfold decode_component in refl
decode_component-encode_component (c ∷ s) (b, h) = elim (Bool-cases (is_unreserved c)) [
  | inl plain ↦
      rw (plain, decode_plain c (encode_component s) (percent_reserved c plain))
        (ap (◌∷◌ c) (decode_component-encode_component s h))
  | inr coded ↦ rw coded (
      decode_coded (c / 16) (c % 16) (encode_component s) (omega arith) (omega arith)
      ∙ ap₂ ◌∷◌ (omega arith) (decode_component-encode_component s h))
]

-- The encoding of a string of bytes has unreserved characters and "%" only.
pub encode_component-safe :
    (s : Bytes) → All (λ b. b < 256) s → All (λ c. is_query_safe c ≡ true) (encode_component s)
unfolding encode_component
encode_component-safe [] h = tt
encode_component-safe (c ∷ s) (b, h) =
    let rest = encode_component-safe s h in
    elim (Bool-cases (is_unreserved c)) [
      | inl plain ↦ rw plain (unreserved-safe c plain, rest)
      | inr coded ↦ rw coded (
        percent-safe,
        (hex_digit-safe (c / 16) (omega arith), (hex_digit-safe (c % 16) (omega arith), rest)),
      )
    ]
