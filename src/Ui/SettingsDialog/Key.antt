-- ===== src/Ui/SettingsDialog/Key.antt =====
-- What OnSave of ui/SettingsDialog.cpp does with the key.
use steam_sales_tray.Ui.Controls.{
  KeyTestResult, Keys, show_result, preferences_changed, key_changed, is_rejected, trim_whitespace,
}
use steam_sales_tray.Ui.SettingsDialog.{
  Settings, save_interval, save_notify, save_startup, save_hide_lifetime, save_preferences, saved,
  store_key, validate_and_store, on_save,
}
use steam_sales_tray.Platform.StartupManager.{RunKey}
use steam_sales_tray.Storage.SettingsStore.{Registry}
use steam_sales_tray.Shared.{
  ◌≡◌, refl, sym, subst, ◌⊎◌, inl, inr, Bool, true, false, ◌||◌, none, some, is_empty, arith,
  Bool-cases, Option-cases,
}
use steam_sales_tray.Shared.Bytes.{Bytes, Wide}

module _ (keys : Keys) (reg : Registry) (run : RunKey) (exe : Wide) where
  -- The key of the edit control, as it is given to the validator and the key store.
  abbrev pub entered_key : Settings keys reg run exe → Bytes
  entered_key s = keys.wide_to_secure_utf8 (trim_whitespace s.dialog.controls.edit_text)

  -- No key was entered: the dialog closes, and the key file is as before.
  abbrev pub HasNoKey : Settings keys reg run exe → Bool × Settings keys reg run exe → Type 0
  HasNoKey s (closes, after) =
      (is_empty (trim_whitespace s.dialog.controls.edit_text) ≡ true)
      × (closes ≡ true)
      × (after.disk ≡ s.disk)
      × (after.dialog.outcome.saved ≡ true)
      × (after.dialog.outcome.key_changed ≡ s.dialog.outcome.key_changed)

  -- The validator definitely rejects the key: the dialog stays open, and the key file is as before.
  abbrev pub HasRejected : Settings keys reg run exe → Bool × Settings keys reg run exe → Type 0
  HasRejected s (closes, after) =
      (validate : Bytes → keys.Net → KeyTestResult × keys.Net) × (keys.validator ≡ some validate)
      × (is_rejected (validate (entered_key s) s.net).0 ≡ true)
      × (closes ≡ false)
      × (after.disk ≡ s.disk)
      × (after.dialog.outcome.saved ≡ s.dialog.outcome.saved)
      × (after.dialog.outcome.key_changed ≡ s.dialog.outcome.key_changed)

  -- There is no validator, or it does not definitely reject the key.
  abbrev pub IsAccepted : Settings keys reg run exe → Type 0
  IsAccepted s =
      (keys.validator ≡ none)
      ⊎ ((validate : Bytes → keys.Net → KeyTestResult × keys.Net) × (keys.validator ≡ some validate)
          × (is_rejected (validate (entered_key s) s.net).0 ≡ false))

  -- Store is called with the key, and the dialog closes where it works.
  abbrev pub IsGivenToStore : Settings keys reg run exe → Bool × Settings keys reg run exe → Type 0
  IsGivenToStore s (closes, after) =
      (closes ≡ (keys.store (entered_key s) s.disk).0)
      × (after.disk ≡ (keys.store (entered_key s) s.disk).1)
      × (after.dialog.outcome.saved ≡ (closes || s.dialog.outcome.saved))
      × (after.dialog.outcome.key_changed ≡ (closes || s.dialog.outcome.key_changed))

  -- A key was entered that is not rejected, and it is given to Store.
  abbrev pub HasStored : Settings keys reg run exe → Bool × Settings keys reg run exe → Type 0
  HasStored s x =
      (is_empty (trim_whitespace s.dialog.controls.edit_text) ≡ false)
      × IsAccepted s
      × IsGivenToStore s x

  save_preferences-keeps :
      (s : Settings keys reg run exe)
      → let after = save_preferences keys reg run exe s in
        (after.disk ≡ s.disk)
        × (after.net ≡ s.net)
        × (after.dialog.controls ≡ s.dialog.controls)
        × (after.dialog.outcome.key_changed ≡ s.dialog.outcome.key_changed)
        × (after.dialog.outcome.saved ≡ s.dialog.outcome.saved)
  unfolding save_preferences save_interval save_notify save_startup save_hide_lifetime
      preferences_changed
  save_preferences-keeps s = ground arith

  store_key-IsGivenToStore :
      (s u : Settings keys reg run exe)
      → u.disk ≡ s.disk
      → u.dialog.outcome.saved ≡ s.dialog.outcome.saved
      → u.dialog.outcome.key_changed ≡ s.dialog.outcome.key_changed
      → IsGivenToStore s (store_key keys reg run exe (entered_key s) u)
  unfolding store_key saved key_changed
  store_key-IsGivenToStore s u disk done key = ground arith

  validated :
      (s u : Settings keys reg run exe)
      → u.disk ≡ s.disk
      → u.net ≡ s.net
      → u.dialog.outcome.saved ≡ s.dialog.outcome.saved
      → u.dialog.outcome.key_changed ≡ s.dialog.outcome.key_changed
      → is_empty (trim_whitespace s.dialog.controls.edit_text) ≡ false
      → let x = validate_and_store keys reg run exe (entered_key s) u in
        HasRejected s x ⊎ HasStored s x
  unfolding validate_and_store show_result
  validated s u disk net done key entered = elim (Option-cases keys.validator) [
    | inl e ↦ inr (entered, inl e, rw e (store_key-IsGivenToStore s u disk done key))
    | inr (validate, e) ↦ elim (Bool-cases (is_rejected (validate (entered_key s) u.net).0)) [
      | inl no_good ↦ inl (
        validate,
        e,
        rw (← net) no_good,
        rw (e, no_good) refl,
        rw (e, no_good) disk,
        rw (e, no_good) done,
        rw (e, no_good) key,
      )
      | inr good ↦ inr (
        entered,
        inr (validate, e, rw (← net) good),
        rw (e, good) (store_key-IsGivenToStore s _ disk done key),
      )
    ]
  ]

  on_save-entered :
      (s : Settings keys reg run exe)
      → is_empty (trim_whitespace s.dialog.controls.edit_text) ≡ false
      → on_save keys reg run exe s
        ≡ validate_and_store keys reg run exe (entered_key s) (save_preferences keys reg run exe s)
  unfolding on_save
  on_save-entered s e = rw e refl

  -- What OnSave does with the key, on every path. Without a key it closes the dialog and leaves the key
  -- file. A key that the validator definitely rejects leaves the dialog open, the key file and the
  -- outcome as they were. Only a key that was entered and is not rejected is given to Store, and then
  -- the dialog closes where Store works.
  pub on_save-key :
      (s : Settings keys reg run exe)
      → let x = on_save keys reg run exe s in HasNoKey s x ⊎ (HasRejected s x ⊎ HasStored s x)
  unfolding on_save saved
  on_save-key s =
      let (disk, net, controls, key, done) = save_preferences-keeps s in
      elim (Bool-cases (is_empty (trim_whitespace s.dialog.controls.edit_text))) [
        | inl e ↦ inl (rw e (refl, refl, disk, refl, key))
        | inr e ↦ inr (
            subst (λ x. HasRejected s x ⊎ HasStored s x) (sym (on_save-entered s e))
              (validated s (save_preferences keys reg run exe s) disk net done key e))
      ]
