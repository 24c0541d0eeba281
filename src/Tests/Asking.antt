-- ===== src/Tests/Asking.antt =====
-- Tests of the settings dialog as app/App.cpp opens it.
use steam_sales_tray.Shared.{◌≡◌, ◌⊎◌, none, false, [], ◌∷◌, arith}
use steam_sales_tray.Shared.Bytes.{codes}
use steam_sales_tray.Sync.Worker.Threads.{IsAsked}
use steam_sales_tray.Ui.SettingsDialog.{Settings, ok_clicked}
use steam_sales_tray.App.App.Settings.{stored_keys, dialog_after, open_settings, open_settings-asks}
use steam_sales_tray.Tests.Data.{client}
use steam_sales_tray.Tests.Keeping.{disk_files, disk_files-laws, key_path, old_key, marked}
use steam_sales_tray.Tests.Storing.{bad_interval}
use steam_sales_tray.Tests.Talking.{run_key}
use steam_sales_tray.Tests.Saving.{dialog}
use steam_sales_tray.Tests.Showing.{icons, desk, app}

abbrev blank :
    Settings
      (stored_keys disk_files marked key_path (λ d. false) client (λ s. s))
      desk.reg
      run_key
      (codes "tray.exe")
blank = record { dialog = dialog; disk = old_key; net = 0; hive = bad_interval; run_hive = none }

open_settings-asks_example :
    (disk_files-laws.contents key_path
        (dialog_after disk_files marked key_path
          (λ d. false)
          desk
          icons
          client
          (λ s. s)
          run_key
          (codes "tray.exe")
          (ok_clicked ∷ [])
          blank).1.disk
      ≡ disk_files-laws.contents key_path old_key)
    ⊎ IsAsked
        (open_settings disk_files marked key_path
          (λ d. false)
          desk
          icons
          client
          (λ s. s)
          run_key
          (codes "tray.exe")
          (ok_clicked ∷ [])
          blank
          app).worker.1
open_settings-asks_example =
    open_settings-asks disk_files marked key_path (λ d. false) desk icons client (λ s. s) run_key
      (codes "tray.exe") disk_files-laws (λ d failed. ground arith) (ok_clicked ∷ []) blank app
      (ground arith) (ground arith)
