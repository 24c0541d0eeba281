-- ===== src/Ui/Controls.antt =====
-- The data of ui/SettingsDialog.cpp and ui/SettingsDialog.h: the outcome, the intervals, the trimming of
-- the key, what the controls hold, and the interface to the key store and the validator.
use steam_sales_tray.Shared.{
  ℕ, Bool, true, false, not, ◌&&◌, ◌||◌, Option, none, some, [], ◌∷◌, is_empty, ◌==◌, if◌then◌else◌,
}
use steam_sales_tray.Shared.Bytes.{Bytes, Wide}
use steam_sales_tray.Storage.SettingsStore.{RefreshInterval}

pub record KeyTestResult : Type 0 where
  pub ok : Bool
  pub could_test : Bool
  pub message : Wide

pub record SettingsOutcome : Type 0 where
  pub saved : Bool
  pub key_changed : Bool
  pub cache_cleared : Bool
  pub preferences_changed : Bool
  pub display_changed : Bool

abbrev pub no_outcome : SettingsOutcome
no_outcome = record {
  saved = false;
  key_changed = false;
  cache_cleared = false;
  preferences_changed = false;
  display_changed = false;
}

-- The key store and the validator, which may be absent, over files and a network of their own.
pub record Keys : Type 1 where
  pub Disk : Type 0
  pub Net : Type 0
  pub has_stored_key : Disk → Bool
  pub remove : Disk → Bool × Disk
  pub store : Bytes → Disk → Bool × Disk
  pub validator : Option (Bytes → Net → KeyTestResult × Net)
  pub wide_to_secure_utf8 : Wide → Bytes

-- kIntervals, in the order they are shown
unfoldable pub interval_at : ℕ → RefreshInterval
interval_at n =
    if n == 0
    then RefreshInterval.min15
    else if n == 1
    then RefreshInterval.min30
    else if n == 2
    then RefreshInterval.min60
    else if n == 3
    then RefreshInterval.hours2
    else if n == 4
    then RefreshInterval.hours6
    else RefreshInterval.manual

-- PopulateIntervalCombo: the position of the last interval that is the current one, or 0
unfoldable pub interval_index : ℕ → ℕ
interval_index minutes =
    if minutes == 15
    then 0
    else if minutes == 30
    then 1
    else if minutes == 60
    then 2
    else if minutes == 120
    then 3
    else if minutes == 360
    then 4
    else if minutes == 0
    then 5
    else 0

-- one of " \t\r\n\f\v"
unfoldable pub is_whitespace : ℕ → Bool
is_whitespace c = c == 32 || (c == 9 || (c == 13 || (c == 10 || (c == 12 || c == 11))))

-- from find_first_not_of on, and up to find_last_not_of
unfoldable pub trim_left : Wide → Wide
unfolding is_whitespace
trim_left [] = []
trim_left (c ∷ s) = let rest = trim_left s in if is_whitespace c then rest else c ∷ s

unfoldable pub trim_right : Wide → Wide
unfolding is_whitespace
trim_right [] = []
trim_right (c ∷ s) =
    let rest = trim_right s in if is_empty rest && is_whitespace c then [] else c ∷ rest

unfoldable pub trim_whitespace : Wide → Wide
unfolding trim_left trim_right
trim_whitespace s = trim_right (trim_left s)

-- The controls, the selection of the combo box being CB_GETCURSEL.
pub record Controls : Type 0 where
  pub edit_text : Wide
  pub interval : Option ℕ
  pub notify : Bool
  pub startup : Bool
  pub hide_lifetime : Bool
  pub shows_key : Bool
  pub key_status : Wide
  pub test_result : Wide

pub record DialogState : Type 0 where
  pub controls : Controls
  pub outcome : SettingsOutcome
  pub initial_interval : ℕ
  pub initial_notify : Bool
  pub initial_startup : Bool
  pub initial_hide_lifetime : Bool
  -- EndDialog
  pub ended : Bool

unfoldable pub selected_interval : Controls → RefreshInterval
unfolding interval_at
selected_interval c = elim c.interval [ none ↦ RefreshInterval.min30 | some i ↦ interval_at i ]

unfoldable pub show_result : Wide → DialogState → DialogState
show_result text d = record d { controls = record d.controls { test_result = text } }

unfoldable pub preferences_changed : DialogState → DialogState
preferences_changed d = record d { outcome = record d.outcome { preferences_changed = true } }

unfoldable pub key_changed : DialogState → DialogState
key_changed d = record d { outcome = record d.outcome { key_changed = true } }

unfoldable pub same_bool : Bool → Bool → Bool
same_bool true b = b
same_bool false b = not b

-- a definite rejection
unfoldable pub is_rejected : KeyTestResult → Bool
is_rejected r = r.could_test && not r.ok
