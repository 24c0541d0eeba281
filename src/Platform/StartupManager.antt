-- ===== src/Platform/StartupManager.antt =====
-- platform/StartupManager.cpp: the Run entry that starts the program with the user's session. The
-- registry is a parameter, and `exe` the path that GetExecutablePath gives.

use mathlib.Core.List.{append_assoc}
use steam_sales_tray.Shared.{
  ℕ, ◌≡◌, ◌≢◌, refl, ap, sym, ◌∙◌, Bool, true, false, not, ◌&&◌, ◌||◌, Option, none, some, [], ◌∷◌,
  ◌++◌, is_empty, ◌==◌, if◌then◌else◌, arith,
}
use steam_sales_tray.Shared.Bytes.{Wide, codes}
use steam_sales_tray.Platform.Logging.{starts_with}

-- The key Software\Microsoft\Windows\CurrentVersion\Run of the current user, and its value
-- SteamSalesTray.
pub record RunKey : Type 1 where
  pub Hive : Type 0
  -- RegOpenKeyExW succeeds with KEY_QUERY_VALUE, and with KEY_SET_VALUE
  pub opens_to_query : Hive → Bool
  pub opens_to_set : Hive → Bool
  -- RegQueryValueExW: the type, and the text with the NULs it is stored with
  pub query : Hive → Option (ℕ × Wide)
  -- RegCreateKeyExW
  pub create : Hive → Bool × Hive
  -- RegSetValueExW of a REG_SZ
  pub set : Wide → Hive → Bool × Hive
  -- RegDeleteValueW succeeds, or its error is ERROR_FILE_NOT_FOUND
  pub delete : Hive → Bool × Hive

abbrev pub reg_sz : ℕ
reg_sz = 1

abbrev pub reg_expand_sz : ℕ
reg_expand_sz = 2

-- wstring::find other than npos
unfoldable pub has_text : Wide → Wide → Bool
unfolding starts_with
has_text needle [] = is_empty needle
has_text needle (c ∷ text) = starts_with needle (c ∷ text) || has_text needle text

-- the loop of pop_back
unfoldable pub trim_nuls : Wide → Wide
trim_nuls [] = []
trim_nuls (c ∷ text) = let rest = trim_nuls text in if is_empty rest && c == 0 then [] else c ∷ rest

unfoldable pub build_command : Wide → Wide
build_command exe = if is_empty exe then [] else (34 ∷ exe) ++ (34 ∷ codes " --background")

module _ (run : RunKey) where
  unfoldable pub is_enabled : Wide → run.Hive → Bool
  unfolding trim_nuls has_text
  is_enabled exe hive =
      if run.opens_to_query hive
      then elim (run.query hive) [
        | none ↦ false
        | some (kind, value) ↦
            if (kind == reg_sz || kind == reg_expand_sz) && not (is_empty value)
            then not (is_empty exe) && has_text exe (trim_nuls value)
            else false
      ]
      else false

  -- the value is set with its NUL
  unfoldable pub enable : Wide → run.Hive → Bool × run.Hive
  unfolding build_command
  enable exe hive =
      let command = build_command exe in
      let (created, hive') = run.create hive in
      if is_empty command
      then (false, hive)
      else if created
      then run.set (command ++ (0 ∷ [])) hive'
      else (false, hive')

  unfoldable pub disable : run.Hive → Bool × run.Hive
  disable hive = if run.opens_to_set hive then run.delete hive else (true, hive)

-- the documented behaviour of the calls: a value that was set is read back with its type
pub record RunKeyLaws (run : RunKey) : Type 0 where
  pub opens_after_set :
      (v : Wide) (h : run.Hive) → (run.set v h).0 ≡ true → run.opens_to_query (run.set v h).1 ≡ true
  pub query_after_set :
      (v : Wide) (h : run.Hive)
      → (run.set v h).0 ≡ true
      → run.query (run.set v h).1 ≡ some (reg_sz, v)

starts_with-append : (needle rest : Wide) → starts_with needle (needle ++ rest) ≡ true
unfolding starts_with
starts_with-append [] rest = refl
starts_with-append (c ∷ needle) rest = ground (arith, starts_with-append needle rest)

has_text-append : (needle rest : Wide) → has_text needle (needle ++ rest) ≡ true
unfolding has_text
has_text-append [] [] = refl
has_text-append [] (c ∷ rest) = ground (arith, starts_with-append [] (c ∷ rest))
has_text-append (c ∷ needle) rest = ground (arith, starts_with-append (c ∷ needle) rest)

trim_nuls-append :
    (text : Wide) (c : ℕ) → c ≢ 0 → trim_nuls (text ++ (c ∷ 0 ∷ [])) ≡ text ++ (c ∷ [])
unfolding trim_nuls
trim_nuls-append [] c h = ground (arith, h)
trim_nuls-append (x ∷ []) c h = ground (arith, trim_nuls-append [] c h)
trim_nuls-append (x ∷ y ∷ text) c h = ground (arith, trim_nuls-append (y ∷ text) c h)

trim_nuls-build_command :
    (c : ℕ) (exe : Wide) → trim_nuls (build_command (c ∷ exe) ++ (0 ∷ [])) ≡ build_command (c ∷ exe)
unfolding build_command codes
trim_nuls-build_command c exe =
    let words = 34 ∷ codes " --backgroun" in
    let text = (34 ∷ c ∷ exe) ++ words in
    ap (λ t. trim_nuls (34 ∷ c ∷ t))
      (append_assoc exe _ (0 ∷ []) ∙ sym (append_assoc exe words (b'd' ∷ 0 ∷ [])))
    ∙ trim_nuls-append text b'd' (omega arith)
    ∙ ap (λ t. 34 ∷ c ∷ t) (append_assoc exe words (b'd' ∷ []))

has_text-build_command : (c : ℕ) (exe : Wide) → has_text (c ∷ exe) (build_command (c ∷ exe)) ≡ true
unfolding build_command has_text
has_text-build_command c exe =
    ground (arith, has_text-append (c ∷ exe) (34 ∷ codes " --background"))

reads_command :
    (run : RunKey) (c : ℕ) (exe : Wide) (h : run.Hive)
    → run.opens_to_query h ≡ true
    → run.query h ≡ some (reg_sz, build_command (c ∷ exe) ++ (0 ∷ []))
    → is_enabled run (c ∷ exe) h ≡ true
unfolding is_enabled build_command
reads_command run c exe h opens value =
    rw (opens, value) (rw (trim_nuls-build_command c exe) (has_text-build_command c exe))

set_command :
    (run : RunKey) (c : ℕ) (exe : Wide) (created : Bool) (h : run.Hive)
    → RunKeyLaws run
    → let stored = build_command (c ∷ exe) ++ (0 ∷ []) in
      let (ok, after) : Bool × run.Hive = if created then run.set stored h else (false, h) in
      ok ≡ true → is_enabled run (c ∷ exe) after ≡ true
unfolding build_command
set_command run c exe true h laws ok =
    reads_command run c exe _ (laws.opens_after_set _ h ok) (laws.query_after_set _ h ok)
set_command run c exe false h laws ok = ground arith

-- Where Enable succeeds, IsEnabled answers true after it with the same path of the executable: the
-- command that is written is read back and found to name this program.
pub is_enabled-enable :
    (run : RunKey) (exe : Wide) (hive : run.Hive)
    → RunKeyLaws run
    → (enable run exe hive).0 ≡ true
    → is_enabled run exe (enable run exe hive).1 ≡ true
unfolding enable build_command
is_enabled-enable run [] hive laws ok = ground arith
is_enabled-enable run (c ∷ exe) hive laws ok =
    set_command run c exe (run.create hive).0 (run.create hive).1 laws ok
