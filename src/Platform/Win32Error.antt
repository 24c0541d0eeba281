-- ===== src/Platform/Win32Error.antt =====
-- platform/Win32Error.cpp: the text of an error of Win32. FormatMessageW is a parameter: the message
-- of a code, or none when it returns 0 or sets no buffer.
use steam_sales_tray.Shared.{
  ℕ, ◌≡◌, ◌∙◌, ap, refl, Bool, true, false, ◌&&◌, ◌||◌, Option, none, some, [], ◌++◌, ◌∷◌, is_empty,
  ◌==◌, if◌then◌else◌, arith,
}
use steam_sales_tray.Shared.Bytes.{Wide, codes}
use steam_sales_tray.Shared.Decimal.{to_string}

-- CR, LF, the period and the space
unfoldable is_trailing : ℕ → Bool
is_trailing c = c == 13 || c == 10 || c == 46 || c == 32

-- the loop of pop_back
unfoldable trim_message : Wide → Wide
unfolding is_trailing
trim_message [] = []
trim_message (c ∷ text) =
    let rest = trim_message text in if is_empty rest && is_trailing c then [] else c ∷ rest

unfoldable described : Option Wide → Wide
unfolding trim_message
described none = []
described (some message) = trim_message message

unfoldable message_text : (ℕ → Option Wide) → ℕ → Wide
unfolding described
message_text format_message code = described (format_message code)

unfoldable with_code : Wide → Wide → Wide
unfolding codes
with_code [] number = codes "Win32 error " ++ number
with_code (c ∷ text) number = (c ∷ text) ++ (codes " (error " ++ (number ++ codes ")"))

unfoldable format_win32_error : (ℕ → Option Wide) → ℕ → Wide
unfolding with_code
format_win32_error format_message code =
    with_code (message_text format_message code) (to_string code)

-- Text that ends in none of these is kept.
trim_message-kept :
    (text : Wide) (c : ℕ)
    → is_trailing c ≡ false
    → trim_message (text ++ (c ∷ [])) ≡ text ++ (c ∷ [])
unfolding trim_message
trim_message-kept [] c h = ground (arith, h)
trim_message-kept (x ∷ []) c h = ground (arith, trim_message-kept [] c h)
trim_message-kept (x ∷ y ∷ text) c h = ground (arith, trim_message-kept (y ∷ text) c h)

-- One more of these at the end of a message changes nothing.
trim_message-trailing :
    (text : Wide) (c : ℕ)
    → is_trailing c ≡ true
    → trim_message (text ++ (c ∷ [])) ≡ trim_message text
unfolding trim_message
trim_message-trailing [] c h = ground (arith, h)
trim_message-trailing (x ∷ text) c h = ground (arith, trim_message-trailing text c h)

-- A message that FormatMessageW ended with a period, CR and LF is shown without them.
message_text-ended :
    (format_message : ℕ → Option Wide) (code : ℕ) (text : Wide) (c : ℕ)
    → format_message code ≡ some ((((text ++ (c ∷ [])) ++ (46 ∷ [])) ++ (13 ∷ [])) ++ (10 ∷ []))
    → is_trailing c ≡ false
    → message_text format_message code ≡ text ++ (c ∷ [])
unfolding message_text is_trailing
message_text-ended format_message code text c h kept =
    let dotted = (text ++ (c ∷ [])) ++ (46 ∷ []) in
    ap described h
    ∙ trim_message-trailing (dotted ++ (13 ∷ [])) 10 refl
    ∙ trim_message-trailing dotted 13 refl
    ∙ trim_message-trailing (text ++ (c ∷ [])) 46 refl
    ∙ trim_message-kept text c kept

with_code-full : (text number : Wide) → is_empty (with_code text number) ≡ false
unfolding with_code codes
with_code-full [] number = refl
with_code-full (c ∷ text) number = refl

-- The text of an error is never empty.
format_win32_error-full :
    (format_message : ℕ → Option Wide) (code : ℕ)
    → is_empty (format_win32_error format_message code) ≡ false
unfolding format_win32_error
format_win32_error-full format_message code =
    with_code-full (message_text format_message code) (to_string code)
