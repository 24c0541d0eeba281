-- ===== src/Ui/SettingsDialog/Preferences.antt =====
-- What OnSave of ui/SettingsDialog.cpp leaves of the preferences in the registry.
use steam_sales_tray.Ui.Controls.{
  Keys, Controls, selected_interval, show_result, preferences_changed, key_changed, same_bool,
  is_rejected, trim_whitespace,
}
use steam_sales_tray.Ui.SettingsDialog.{
  Settings, save_interval, save_notify, save_startup, save_hide_lifetime, save_preferences, saved,
  store_key, validate_and_store, on_save,
}
use steam_sales_tray.Platform.StartupManager.{RunKey}
use steam_sales_tray.Storage.SettingsStore.{
  Registry, RefreshInterval, minutes_of, clamp_interval, get_refresh_interval, set_refresh_interval,
  get_notify_on_new_units, set_notify_on_new_units, get_hide_lifetime, set_hide_lifetime,
}
use steam_sales_tray.Storage.SettingsStore.RoundTrip.{
  RegistryLaws, read_dword-write_dword, read_dword-write_dword_other,
  get_refresh_interval-set_refresh_interval,
}
use steam_sales_tray.Shared.{
  ◌≡◌, refl, ap, sym, subst, ◌∙◌, inl, inr, Bool, true, false, not, is_empty, ◌==◌, if◌then◌else◌,
  arith, Bool-cases, Option-cases,
}
use steam_sales_tray.Shared.Bytes.{Bytes, Wide, codes, bytes_eq}

-- What the dialog's snapshot has, where it is that of the registry.
module _ (keys : Keys) (reg : Registry) (run : RunKey) (exe : Wide) (laws : RegistryLaws reg) where
  abbrev pub IsSnapshot : Settings keys reg run exe → Type 0
  IsSnapshot s =
      (s.dialog.initial_interval ≡ get_refresh_interval reg s.hive)
      × (s.dialog.initial_notify ≡ get_notify_on_new_units reg s.hive)
      × (s.dialog.initial_hide_lifetime ≡ get_hide_lifetime reg s.hive)

  -- the preferences that a registry holds
  abbrev pub Holds : reg.Hive → Controls → Type 0
  Holds hive c =
      (get_refresh_interval reg hive ≡ minutes_of (selected_interval c))
      × (get_notify_on_new_units reg hive ≡ c.notify)
      × (get_hide_lifetime reg hive ≡ c.hide_lifetime)

  -- the registry after save_preferences, one preference at a time
  abbrev saved_hive : Settings keys reg run exe → reg.Hive
  saved_hive s =
      let d = s.dialog in
      let interval = selected_interval d.controls in
      let h1 =
        if minutes_of interval == d.initial_interval
        then s.hive
        else set_refresh_interval reg interval s.hive in
      let h2 =
        if same_bool d.controls.notify d.initial_notify
        then h1
        else set_notify_on_new_units reg d.controls.notify h1 in
      if same_bool d.controls.hide_lifetime d.initial_hide_lifetime
      then h2
      else set_hide_lifetime reg d.controls.hide_lifetime h2

  save_preferences-saved_hive :
      (s : Settings keys reg run exe) → (save_preferences keys reg run exe s).hive ≡ saved_hive s
  unfolding save_preferences save_interval save_notify save_startup save_hide_lifetime
      preferences_changed
  save_preferences-saved_hive s = ground arith

  interval-after_notify :
      (b : Bool) (h : reg.Hive)
      → get_refresh_interval reg (set_notify_on_new_units reg b h) ≡ get_refresh_interval reg h
  unfolding get_refresh_interval set_notify_on_new_units codes bytes_eq
  interval-after_notify b h =
      ap clamp_interval (read_dword-write_dword_other reg laws _ _ _ _ h refl)

  interval-after_hide :
      (b : Bool) (h : reg.Hive)
      → get_refresh_interval reg (set_hide_lifetime reg b h) ≡ get_refresh_interval reg h
  unfolding get_refresh_interval set_hide_lifetime codes bytes_eq
  interval-after_hide b h = ap clamp_interval (read_dword-write_dword_other reg laws _ _ _ _ h refl)

  notify-after_interval :
      (i : RefreshInterval) (h : reg.Hive)
      → get_notify_on_new_units reg (set_refresh_interval reg i h) ≡ get_notify_on_new_units reg h
  unfolding get_notify_on_new_units set_refresh_interval codes bytes_eq
  notify-after_interval i h =
      ap (λ v. not (v == 0)) (read_dword-write_dword_other reg laws _ _ _ _ h refl)

  notify-after_notify :
      (b : Bool) (h : reg.Hive) → get_notify_on_new_units reg (set_notify_on_new_units reg b h) ≡ b
  unfolding get_notify_on_new_units set_notify_on_new_units
  notify-after_notify true h = ap (λ v. not (v == 0)) (read_dword-write_dword reg laws _ _ _ h)
  notify-after_notify false h = ap (λ v. not (v == 0)) (read_dword-write_dword reg laws _ _ _ h)

  notify-after_hide :
      (b : Bool) (h : reg.Hive)
      → get_notify_on_new_units reg (set_hide_lifetime reg b h) ≡ get_notify_on_new_units reg h
  unfolding get_notify_on_new_units set_hide_lifetime codes bytes_eq
  notify-after_hide b h =
      ap (λ v. not (v == 0)) (read_dword-write_dword_other reg laws _ _ _ _ h refl)

  hide-after_interval :
      (i : RefreshInterval) (h : reg.Hive)
      → get_hide_lifetime reg (set_refresh_interval reg i h) ≡ get_hide_lifetime reg h
  unfolding get_hide_lifetime set_refresh_interval codes bytes_eq
  hide-after_interval i h =
      ap (λ v. not (v == 0)) (read_dword-write_dword_other reg laws _ _ _ _ h refl)

  hide-after_notify :
      (b : Bool) (h : reg.Hive)
      → get_hide_lifetime reg (set_notify_on_new_units reg b h) ≡ get_hide_lifetime reg h
  unfolding get_hide_lifetime set_notify_on_new_units codes bytes_eq
  hide-after_notify b h =
      ap (λ v. not (v == 0)) (read_dword-write_dword_other reg laws _ _ _ _ h refl)

  hide-after_hide :
      (b : Bool) (h : reg.Hive) → get_hide_lifetime reg (set_hide_lifetime reg b h) ≡ b
  unfolding get_hide_lifetime set_hide_lifetime
  hide-after_hide true h = ap (λ v. not (v == 0)) (read_dword-write_dword reg laws _ _ _ h)
  hide-after_hide false h = ap (λ v. not (v == 0)) (read_dword-write_dword reg laws _ _ _ h)

  same_bool_eq : (a b : Bool) → same_bool a b ≡ true → a ≡ b
  unfolding same_bool
  same_bool_eq true true h = refl
  same_bool_eq true false h = ground arith
  same_bool_eq false true h = ground arith
  same_bool_eq false false h = refl

  store_key-hive :
      (key : Bytes) (u : Settings keys reg run exe)
      → (store_key keys reg run exe key u).1.hive ≡ u.hive
  unfolding store_key saved key_changed
  store_key-hive key u = ground arith

  validate_and_store-hive :
      (key : Bytes) (u : Settings keys reg run exe)
      → (validate_and_store keys reg run exe key u).1.hive ≡ u.hive
  unfolding validate_and_store show_result
  validate_and_store-hive key u = elim (Option-cases keys.validator) [
    | inl e ↦ rw e (store_key-hive key u)
    | inr (validate, e) ↦ elim (Bool-cases (is_rejected (validate key u.net).0)) [
      | inl no_good ↦ rw (e, no_good) refl
      | inr good ↦ rw (e, good) (store_key-hive key _)
    ]
  ]

  on_save-hive :
      (s : Settings keys reg run exe)
      → (on_save keys reg run exe s).1.hive ≡ (save_preferences keys reg run exe s).hive
  unfolding on_save saved
  on_save-hive s = elim (Bool-cases (is_empty (trim_whitespace s.dialog.controls.edit_text))) [
    | inl e ↦ rw e refl
    | inr e ↦ rw e (validate_and_store-hive _ (save_preferences keys reg run exe s))
  ]

  saved_hive-Holds :
      (s : Settings keys reg run exe) → IsSnapshot s → Holds (saved_hive s) s.dialog.controls
  saved_hive-Holds s snapshot =
      let interval = selected_interval s.dialog.controls in
      let notify = s.dialog.controls.notify in
      let hide = s.dialog.controls.hide_lifetime in
      grind (
        arith,
        interval-after_notify,
        interval-after_hide,
        get_refresh_interval-set_refresh_interval reg laws interval,
        notify-after_interval,
        notify-after_notify,
        notify-after_hide,
        hide-after_interval,
        hide-after_notify,
        hide-after_hide,
        same_bool_eq notify s.dialog.initial_notify,
        same_bool_eq hide s.dialog.initial_hide_lifetime,
      )

  -- With a registry that can be read and written, and a snapshot that is still that of the registry,
  -- OnSave leaves the registry with the interval, the notification and the hidden lifetime that the
  -- controls show, whether the dialog closes or not.
  pub on_save-preferences :
      (s : Settings keys reg run exe)
      → IsSnapshot s
      → Holds (on_save keys reg run exe s).1.hive s.dialog.controls
  on_save-preferences s snapshot =
      subst (λ h. Holds h s.dialog.controls) (sym (on_save-hive s ∙ save_preferences-saved_hive s))
        (saved_hive-Holds s snapshot)
