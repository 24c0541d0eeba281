-- ===== src/Ui/SettingsDialog.antt =====
-- ui/SettingsDialog.cpp: the modal dialog of the settings. Its state is what the controls hold, the
-- preferences as they were at first, and the outcome; the answer of a message box comes with the
-- command that opens it. The key file, the validator and the conversion to UTF-8 are an interface.
pub mod Key
pub mod Preferences
pub mod Notice
use steam_sales_tray.Ui.Controls.{
  KeyTestResult, SettingsOutcome, no_outcome, Keys, interval_at, interval_index, is_whitespace,
  trim_left, trim_right, trim_whitespace, Controls, DialogState, selected_interval, show_result,
  preferences_changed, key_changed, same_bool, is_rejected,
}
use steam_sales_tray.Shared.{
  ℕ, zero, suc, ◌+◌, Bool, true, false, not, ◌&&◌, ◌||◌, Option, none, some, List, [], ◌∷◌,
  is_empty, ◌==◌, if◌then◌else◌,
}
use steam_sales_tray.Shared.Bytes.{Bytes, Wide, codes}
use steam_sales_tray.Platform.StartupManager.{RunKey, is_enabled, enable, disable}
use steam_sales_tray.Storage.SettingsStore.{
  Registry, RefreshInterval, minutes_of, get_refresh_interval, set_refresh_interval,
  get_notify_on_new_units, set_notify_on_new_units, get_hide_lifetime, set_hide_lifetime,
}

module _ (keys : Keys) (reg : Registry) (run : RunKey) (exe : Wide) where
  -- The dialog with what it works on.
  pub record Settings : Type 0 where
    pub dialog : DialogState
    pub disk : keys.Disk
    pub net : keys.Net
    pub hive : reg.Hive
    pub run_hive : run.Hive

  unfoldable pub key_status_label : keys.Disk → Wide
  key_status_label disk =
      if keys.has_stored_key disk
      then codes "A stored API key is configured. Enter a new key to replace it."
      else codes "No API key stored. Enter one to enable syncing."

  unfoldable pub set_key_status_label : Settings → Settings
  unfolding key_status_label
  set_key_status_label s =
      let d = s.dialog in
      record s {
        dialog = record d { controls = record d.controls { key_status = key_status_label s.disk } };
      }

  unfoldable pub on_init_dialog : Settings → Settings
  unfolding set_key_status_label interval_index
  on_init_dialog s =
      let labelled = set_key_status_label s in
      let interval = get_refresh_interval reg s.hive in
      let notify = get_notify_on_new_units reg s.hive in
      let startup = is_enabled run exe s.run_hive in
      let hide = get_hide_lifetime reg s.hive in
      record s {
        dialog = record labelled.dialog {
          initial_interval = interval;
          initial_notify = notify;
          initial_startup = startup;
          initial_hide_lifetime = hide;
          controls = record labelled.dialog.controls {
            interval = some (interval_index interval);
            notify = notify;
            startup = startup;
            hide_lifetime = hide;
          };
        };
      }

  unfoldable pub on_toggle_show_key : Bool → Settings → Settings
  on_toggle_show_key show s = record s {
    dialog = record s.dialog { controls = record s.dialog.controls { shows_key = show } };
  }

  unfoldable pub on_test_connection : Settings → Settings
  unfolding show_result trim_whitespace
  on_test_connection s =
      let text = trim_whitespace s.dialog.controls.edit_text in
      if is_empty text
      then record s { dialog = show_result (codes "Enter a key above to test it.") s.dialog }
      else elim keys.validator [
        | none ↦ record s {
          dialog = show_result (codes "Live testing is not available in this build.") s.dialog;
        }
        | some validate ↦
            let (result, net) = validate (keys.wide_to_secure_utf8 text) s.net in
            record s { dialog = show_result result.message s.dialog; net = net }
      ]

  -- `confirmed` is the answer of the message box
  unfoldable pub on_clear_cache : Bool → Settings → Settings
  unfolding show_result
  on_clear_cache confirmed s =
      let d = record s.dialog { outcome = record s.dialog.outcome { cache_cleared = true } } in
      if confirmed
      then record s {
        dialog = show_result (codes "Local sales cache will be cleared and re-synced.") d;
      }
      else s

  unfoldable pub on_remove_key : Bool → Settings → Settings
  unfolding show_result set_key_status_label key_changed
  on_remove_key confirmed s =
      let (removed, disk) = keys.remove s.disk in
      let labelled =
        set_key_status_label (record s { dialog = key_changed s.dialog; disk = disk }) in
      if not (keys.has_stored_key s.disk)
      then record s { dialog = show_result (codes "No stored key to remove.") s.dialog }
      else if not confirmed
      then s
      else if removed
      then record labelled {
        dialog = show_result (codes "Stored API key removed.") labelled.dialog;
      }
      else record s {
        dialog = show_result (codes "Could not remove the stored key.") s.dialog;
        disk = disk;
      }

  unfoldable pub save_interval : Settings → Settings
  unfolding selected_interval preferences_changed
  save_interval s =
      let interval = selected_interval s.dialog.controls in
      if minutes_of interval == s.dialog.initial_interval then s else record s {
        hive = set_refresh_interval reg interval s.hive;
        dialog = preferences_changed s.dialog;
      }

  unfoldable pub save_notify : Settings → Settings
  unfolding preferences_changed same_bool
  save_notify s =
      let notify = s.dialog.controls.notify in
      if same_bool notify s.dialog.initial_notify then s else record s {
        hive = set_notify_on_new_units reg notify s.hive;
        dialog = preferences_changed s.dialog;
      }

  unfoldable pub save_startup : Settings → Settings
  unfolding preferences_changed same_bool
  save_startup s =
      let startup = s.dialog.controls.startup in
      let (enabled, after_enable) = enable run exe s.run_hive in
      let (disabled, after_disable) = disable run s.run_hive in
      if same_bool startup s.dialog.initial_startup then s else record s {
        run_hive = if startup then after_enable else after_disable;
        dialog = preferences_changed s.dialog;
      }

  unfoldable pub save_hide_lifetime : Settings → Settings
  unfolding same_bool
  save_hide_lifetime s =
      let hide = s.dialog.controls.hide_lifetime in
      let outcome = record s.dialog.outcome { display_changed = true } in
      if same_bool hide s.dialog.initial_hide_lifetime then s else record s {
        hive = set_hide_lifetime reg hide s.hive;
        dialog = record s.dialog { outcome = outcome };
      }

  unfoldable pub save_preferences : Settings → Settings
  unfolding save_interval save_notify save_startup save_hide_lifetime
  save_preferences s = save_hide_lifetime (save_startup (save_notify (save_interval s)))

  unfoldable pub saved : Settings → Bool × Settings
  saved s =
      let outcome = record s.dialog.outcome { saved = true } in
      (true, record s { dialog = record s.dialog { outcome = outcome } })

  -- the end of OnSave for a key that was not rejected
  unfoldable pub store_key : Bytes → Settings → Bool × Settings
  unfolding key_changed saved
  store_key key s =
      let (stored, disk) = keys.store key s.disk in
      if stored
      then saved (record s { disk = disk; dialog = key_changed s.dialog })
      else (false, record s { disk = disk })

  unfoldable pub validate_and_store : Bytes → Settings → Bool × Settings
  unfolding store_key is_rejected show_result
  validate_and_store key s = elim keys.validator [
    | none ↦ store_key key s
    | some validate ↦
        let (result, net) = validate key s.net in
        if is_rejected result
        then (false, record s { net = net; dialog = show_result result.message s.dialog })
        else store_key key (record s { net = net })
  ]

  -- whether the dialog should close
  unfoldable pub on_save : Settings → Bool × Settings
  unfolding save_preferences trim_whitespace saved validate_and_store
  on_save s =
      let s1 = save_preferences s in
      let trimmed = trim_whitespace s.dialog.controls.edit_text in
      if is_empty trimmed
      then saved s1
      else validate_and_store (keys.wide_to_secure_utf8 trimmed) s1

  -- the commands of DialogProc; the user's edits of a control are commands too
  pub data DialogCommand : Type 0 where
    edited : Controls → DialogCommand
    show_key : Bool → DialogCommand
    test_clicked ok_clicked cancelled : DialogCommand
    clear_clicked remove_clicked : Bool → DialogCommand

  unfoldable pub end_dialog : Settings → Settings
  end_dialog s = record s { dialog = record s.dialog { ended = true } }

  unfoldable pub dialog_proc : DialogCommand → Settings → Settings
  unfolding on_save end_dialog on_toggle_show_key on_test_connection on_clear_cache on_remove_key
  dialog_proc (edited controls) s = record s { dialog = record s.dialog { controls = controls } }
  dialog_proc (show_key show) s = on_toggle_show_key show s
  dialog_proc test_clicked s = on_test_connection s
  dialog_proc ok_clicked s = let (close, s') = on_save s in if close then end_dialog s' else s'
  dialog_proc cancelled s = end_dialog s
  dialog_proc (clear_clicked confirmed) s = on_clear_cache confirmed s
  dialog_proc (remove_clicked confirmed) s = on_remove_key confirmed s

  -- the commands up to the one that ends the dialog
  unfoldable pub run_dialog : List DialogCommand → Settings → Settings
  unfolding dialog_proc
  run_dialog [] s = s
  run_dialog (c ∷ cs) s =
      let rest = run_dialog cs (dialog_proc c s) in if s.dialog.ended then s else rest

  -- ShowSettingsDialog: `blank` is the state of a new dialog
  unfoldable pub show_settings_dialog : List DialogCommand → Settings → SettingsOutcome × Settings
  unfolding run_dialog on_init_dialog
  show_settings_dialog cs blank =
      let after = run_dialog cs (on_init_dialog blank) in (after.dialog.outcome, after)
