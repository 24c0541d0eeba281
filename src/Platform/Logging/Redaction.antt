-- ===== src/Platform/Logging/Redaction.antt =====
-- RedactSecrets of platform/Logging.cpp against an automaton that reads the text once.
use steam_sales_tray.Platform.Logging.{
  starts_with, find_split, is_delimiter, value_end, key_needle, redact_loop, redact_secrets,
  LogFiles, LogLevel, write_line, write_log,
}
use mathlib.Core.Option
use mathlib.Core.List.{append_assoc}
use steam_sales_tray.Shared.{
  ℕ, zero, suc, ◌≤◌, ◌<◌, ◌≡◌, refl, sym, ap, subst, ◌∙◌, true, false, Option, none, some, [], ◌∷◌,
  ◌++◌, length, drop, All, inl, inr, ◌==◌, if◌then◌else◌, arith, Bool-cases, Option-cases,
}
use steam_sales_tray.Shared.Bytes.{Bytes, Wide, codes}

-- how much of "key=" was read last, or that a value is being left out
pub data Mode : Type 0 where
  start seen_k seen_ke seen_key value : Mode

-- The text with each value replaced, in one pass.
unfoldable pub scan : Mode → Wide → Wide
unfolding is_delimiter codes
scan m [] = []
scan value (c ∷ text) =
    let kept = scan start text in
    let left_out = scan value text in if is_delimiter c then c ∷ kept else left_out
scan seen_key (c ∷ text) =
    let found = scan value text in
    let again = scan seen_k text in
    let none_yet = scan start text in
    if c == b'='
    then c ∷ (codes "REDACTED" ++ found)
    else c ∷ (if c == b'k' then again else none_yet)
scan seen_ke (c ∷ text) =
    let more = scan seen_key text in
    let again = scan seen_k text in
    let none_yet = scan start text in
    c ∷ (if c == b'y' then more else if c == b'k' then again else none_yet)
scan seen_k (c ∷ text) =
    let more = scan seen_ke text in
    let again = scan seen_k text in
    let none_yet = scan start text in
    c ∷ (if c == b'e' then more else if c == b'k' then again else none_yet)
scan start (c ∷ text) =
    let again = scan seen_k text in
    let none_yet = scan start text in c ∷ (if c == b'k' then again else none_yet)

scan-seen_key : (t : Wide) → starts_with (b'=' ∷ []) t ≡ false → scan seen_key t ≡ scan start t
unfolding scan starts_with
scan-seen_key [] h = refl
scan-seen_key (c ∷ t) h = ground arith

scan-seen_ke : (t : Wide) → starts_with (b'y' ∷ b'=' ∷ []) t ≡ false → scan seen_ke t ≡ scan start t
unfolding scan starts_with
scan-seen_ke [] h = refl
scan-seen_ke (c ∷ t) h = ground (arith, scan-seen_key t)

scan-seen_k :
    (t : Wide) → starts_with (b'e' ∷ b'y' ∷ b'=' ∷ []) t ≡ false → scan seen_k t ≡ scan start t
unfolding scan starts_with
scan-seen_k [] h = refl
scan-seen_k (c ∷ t) h = ground (arith, scan-seen_ke t)

scan-start :
    (c : ℕ) (t : Wide)
    → starts_with key_needle (c ∷ t) ≡ false
    → scan start (c ∷ t) ≡ c ∷ scan start t
unfolding scan starts_with
scan-start c t h = ground (arith, scan-seen_k t)

scan-value : (t : Wide) → scan value t ≡ scan start (value_end t)
unfolding scan value_end is_delimiter
scan-value [] = refl
scan-value (c ∷ t) = ground (arith, scan-value t)

length-value_end : (t : Wide) → length (value_end t) ≤ length t
unfolding value_end
length-value_end [] = omega arith
length-value_end (c ∷ t) = ground (arith, length-value_end t)

-- what a needle that is found tells of the text
abbrev IsSplit : Wide → Option (Wide × Wide) → Type 0
IsSplit t none = scan start t ≡ t
IsSplit t (some (before, after)) =
    (scan start t ≡ before ++ (key_needle ++ (codes "REDACTED" ++ scan value after)))
    × (length after < length t)

scan-found :
    (c : ℕ) (t : Wide)
    → starts_with key_needle (c ∷ t) ≡ true
    → IsSplit (c ∷ t) (some ([], drop (length key_needle) (c ∷ t)))
unfolding scan starts_with
scan-found c [] h = ground arith
scan-found c (e ∷ []) h = ground arith
scan-found c (e ∷ y ∷ []) h = ground arith
scan-found c (e ∷ y ∷ q ∷ t) h = ground arith

IsSplit-later :
    (c : ℕ) (t : Wide)
    → starts_with key_needle (c ∷ t) ≡ false
    → (x : Option (Wide × Wide)) → IsSplit t x
    → IsSplit (c ∷ t) (elim x [ none ↦ none | some (before, after) ↦ some (c ∷ before, after) ])
IsSplit-later c t h none ih = scan-start c t h ∙ ap (λ x. c ∷ x) ih
IsSplit-later c t h (some (before, after)) ih =
    (scan-start c t h ∙ ap (λ x. c ∷ x) ih.0, omega (arith, ih.1))

find_split-IsSplit : (t : Wide) → IsSplit t (find_split key_needle t)
unfolding find_split scan
find_split-IsSplit [] = refl
find_split-IsSplit (c ∷ t) = elim (Bool-cases (starts_with key_needle (c ∷ t))) [
  | inl e ↦ rw e (scan-found c t e)
  | inr e ↦ rw e (IsSplit-later c t e _ (find_split-IsSplit t))
]

redact_loop-found :
    (fuel : ℕ) (done text before after : Wide)
    → find_split key_needle text ≡ some (before, after)
    → redact_loop (suc fuel) done text
      ≡ redact_loop fuel (done ++ (before ++ (key_needle ++ codes "REDACTED"))) (value_end after)
unfolding redact_loop codes
redact_loop-found fuel done text before after e = rw (redact_loop, e) refl

redact_loop-scan :
    (fuel : ℕ) (done text : Wide)
    → length text < fuel
    → redact_loop fuel done text ≡ some (done ++ scan start text)
unfolding redact_loop codes
redact_loop-scan zero done text enough = absurd (omega arith)
redact_loop-scan (suc fuel) done text enough = elim (Option-cases (find_split key_needle text)) [
  | inl e ↦
      let same = subst (IsSplit text) e (find_split-IsSplit text) in
      rw (redact_loop, e) (ap (λ x. some (done ++ x)) (sym same))
  | inr ((before, after), e) ↦
      let (same, shorter) = subst (IsSplit text) e (find_split-IsSplit text) in
      let found = before ++ (key_needle ++ codes "REDACTED") in
      let rest = scan start (value_end after) in
      redact_loop-found fuel done text before after e
      ∙ redact_loop-scan fuel (done ++ found) (value_end after)
          (omega (arith, length-value_end after))
      ∙ ap some (
          append_assoc done found rest
          ∙ ap (λ x. done ++ x)
              (append_assoc before _ rest
                ∙ ap (λ x. before ++ (key_needle ++ (codes "REDACTED" ++ x)))
                    (sym (scan-value after))
                ∙ sym same))
]

-- RedactSecrets ends on every text, and gives the text in which one pass has replaced the value after
-- each "key=" by REDACTED, a value ending at the first delimiter or at the end of the text.
pub redact_secrets-scan : (text : Wide) → redact_secrets text ≡ some (scan start text)
unfolding redact_secrets
redact_secrets-scan text = redact_loop-scan (suc (length text)) [] text (omega arith)

abbrev pub HasNoDelimiter : Wide → Type 0
HasNoDelimiter = All (λ c. is_delimiter c ≡ false)

scan-value_append : (v rest : Wide) → HasNoDelimiter v → scan value (v ++ rest) ≡ scan value rest
unfolding scan
scan-value_append [] rest h = refl
scan-value_append (c ∷ v) rest h = ground (arith, scan-value_append v rest h.1)

scan-key :
    (m : Mode) (v rest : Wide)
    → HasNoDelimiter v
    → scan m (key_needle ++ (v ++ rest)) ≡ scan m (key_needle ++ rest)
unfolding scan is_delimiter
scan-key start v rest h = ground (arith, scan-value_append v rest h)
scan-key seen_k v rest h = ground (arith, scan-value_append v rest h)
scan-key seen_ke v rest h = ground (arith, scan-value_append v rest h)
scan-key seen_key v rest h = ground (arith, scan-value_append v rest h)
scan-key value v rest h = ground (arith, scan-value_append v rest h)

scan-after :
    (m : Mode) (before s t : Wide)
    → ((n : Mode) → scan n s ≡ scan n t)
    → scan m (before ++ s) ≡ scan m (before ++ t)
unfolding scan
scan-after m [] s t h = h m
scan-after start (c ∷ before) s t h =
    ground (arith, scan-after start before s t h, scan-after seen_k before s t h)
scan-after seen_k (c ∷ before) s t h = ground (
  arith,
  scan-after start before s t h,
  scan-after seen_k before s t h,
  scan-after seen_ke before s t h,
)
scan-after seen_ke (c ∷ before) s t h = ground (
  arith,
  scan-after start before s t h,
  scan-after seen_k before s t h,
  scan-after seen_key before s t h,
)
scan-after seen_key (c ∷ before) s t h = ground (
  arith,
  scan-after start before s t h,
  scan-after seen_k before s t h,
  scan-after value before s t h,
)
scan-after value (c ∷ before) s t h =
    ground (arith, scan-after start before s t h, scan-after value before s t h)

redact_secrets-hides :
    (before v w rest : Wide)
    → HasNoDelimiter v
    → HasNoDelimiter w
    → redact_secrets (before ++ (key_needle ++ (v ++ rest)))
      ≡ redact_secrets (before ++ (key_needle ++ (w ++ rest)))
redact_secrets-hides before v w rest hv hw =
    redact_secrets-scan _
    ∙ ap some (scan-after start before _ _ λ m. scan-key m v rest hv ∙ sym (scan-key m w rest hw))
    ∙ sym (redact_secrets-scan _)

-- What is logged does not depend on a key: of two messages that differ only in the value after a
-- "key=", each value without a delimiter, Write leaves the same file, whatever stands before and
-- after the key, and it always comes to its end.
pub write_log-hides :
    (files : LogFiles) (time : Bytes) (level : LogLevel) (component before v w rest : Wide)
    (path : Wide) (d : files.Disk)
    → HasNoDelimiter v
    → HasNoDelimiter w
    → (after : Wide × files.Disk) × (write_log files time level component
          (before ++ (key_needle ++ (v ++ rest)))
          (path, d)
        ≡ some after)
      × (write_log files time level component (before ++ (key_needle ++ (w ++ rest))) (path, d)
          ≡ some after)
unfolding write_log
write_log-hides files time level component before v w rest path d hv hw =
    let finish = Option.map (write_line files time level component (path, d)) in
    let hidden = before ++ (key_needle ++ (w ++ rest)) in
    (
      _,
      ap finish (redact_secrets-hides before v w rest hv hw ∙ redact_secrets-scan hidden),
      ap finish (redact_secrets-scan hidden),
    )
