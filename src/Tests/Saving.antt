-- ===== src/Tests/Saving.antt =====
-- Tests of ui/SettingsDialog.cpp.
use steam_sales_tray.Shared.{ℕ, ◌⊎◌, refl, true, false, none, some, [], is_empty, not, ◌+◌}
use steam_sales_tray.Shared.Bytes.{Bytes, codes}
use steam_sales_tray.Storage.SettingsStore.{
  get_hide_lifetime, get_refresh_interval, get_notify_on_new_units,
}
use steam_sales_tray.Ui.Controls.{Keys, DialogState, no_outcome}
use steam_sales_tray.Ui.SettingsDialog.{Settings, on_save}
use steam_sales_tray.Ui.SettingsDialog.Key.{HasNoKey, HasRejected, HasStored, on_save-key}
use steam_sales_tray.Ui.SettingsDialog.Preferences.{Holds, on_save-preferences}
use steam_sales_tray.Tests.Storing.{registry, registry-laws, bad_interval}
use steam_sales_tray.Tests.Talking.{run_key}

-- A key store of one key, and a validator that rejects every key.
abbrev keys : Keys
keys = record {
  Disk = Bytes;
  Net = ℕ;
  has_stored_key = λ d. not (is_empty d);
  remove = λ d. (true, []);
  store = λ key d. (true, key);
  validator = some λ key net.
      (record { ok = false; could_test = true; message = codes "The key was rejected" }, net + 1);
  wide_to_secure_utf8 = λ s. s;
}

abbrev pub dialog : DialogState
dialog = record {
  controls = record {
    edit_text = codes " KEY ";
    interval = some 2;
    notify = true;
    startup = true;
    hide_lifetime = true;
    shows_key = false;
    key_status = [];
    test_result = [];
  };
  outcome = no_outcome;
  initial_interval = get_refresh_interval registry bad_interval;
  initial_notify = get_notify_on_new_units registry bad_interval;
  initial_startup = false;
  initial_hide_lifetime = get_hide_lifetime registry bad_interval;
  ended = false;
}

abbrev dialog_settings : Settings keys registry run_key (codes "tray.exe")
dialog_settings = record {
  dialog = dialog;
  disk = codes "OLD";
  net = 0;
  hive = bad_interval;
  run_hive = none;
}

on_save-key_example :
    let x = on_save keys registry run_key (codes "tray.exe") dialog_settings in
    HasNoKey keys registry run_key (codes "tray.exe") dialog_settings x
    ⊎ (HasRejected keys registry run_key (codes "tray.exe") dialog_settings x
        ⊎ HasStored keys registry run_key (codes "tray.exe") dialog_settings x)
on_save-key_example = on_save-key keys registry run_key (codes "tray.exe") dialog_settings

on_save-preferences_example :
    Holds keys registry run_key
      (codes "tray.exe")
      registry-laws
      (on_save keys registry run_key (codes "tray.exe") dialog_settings).1.hive
      dialog.controls
on_save-preferences_example =
    on_save-preferences keys registry run_key (codes "tray.exe") registry-laws dialog_settings
      (refl, refl, refl)
