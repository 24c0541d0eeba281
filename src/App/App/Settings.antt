-- ===== src/App/App/Settings.antt =====
-- OnSettings of app/App.cpp with the dialog it opens: over the key file of
-- security/DpapiSecretStore.cpp, with the validator that asks Steam.
use steam_sales_tray.Shared.{
  ◌≡◌, ◌≢◌, refl, ◌∙◌, sym, ap, subst, ◌⊎◌, inl, inr, Bool, Bool-cases, true, false, ◌||◌, none,
  some, List, if◌then◌else◌, arith,
}
use steam_sales_tray.Shared.Bytes.{Bytes, Wide}
use steam_sales_tray.Platform.Files.{FileApi, FileLaws}
use steam_sales_tray.Platform.StartupManager.{RunKey}
use steam_sales_tray.Security.DpapiSecretStore.{
  Dpapi, store, remove, has_stored_key, store-IsStored,
}
use steam_sales_tray.Sync.Service.Monad.{SteamApi, State, SyncStatus}
use steam_sales_tray.Sync.Worker.{
  Events, request_manual_refresh, notify_settings_changed, request_clear_cache,
}
use steam_sales_tray.Sync.Worker.Threads.{IsAsked}
use steam_sales_tray.Sync.Worker.Threads.Requests.{set_event-signals}
use steam_sales_tray.Tray.TrayIcon.{Shell}
use steam_sales_tray.Tray.TrayMenu.{no_command}
use steam_sales_tray.Ui.SalesWindow.{Surroundings, View, on_settings_changed}
use steam_sales_tray.Ui.Controls.{Keys, SettingsOutcome}
use steam_sales_tray.Ui.SettingsDialog.{Settings, DialogCommand, show_settings_dialog}
use steam_sales_tray.Ui.SettingsDialog.Notice.{KeepsOnFailure, show_settings_dialog-notices}
use steam_sales_tray.App.App.{
  App, Answers, apply_outcome, on_settings, on_conn, idle_text, tray_text, show_tooltip,
  update_tray, update_tooltip_for_key_state,
}
use steam_sales_tray.App.App.KeyTest.{validate_key}

module _ (files : FileApi) (dpapi : Dpapi) (path : Wide) (not_found : files.Disk → Bool) where
  -- The key store and the validator that OnSettings gives the dialog.
  abbrev pub stored_keys : (api : SteamApi) → (Wide → Bytes) → Keys
  stored_keys api wide_to_secure_utf8 = record {
    Disk = files.Disk;
    Net = api.Net;
    has_stored_key = has_stored_key files dpapi path;
    remove = remove files dpapi not_found path;
    store = store files dpapi path;
    validator = some (validate_key api);
    wide_to_secure_utf8 = wide_to_secure_utf8;
  }

module _ (env : Surroundings) (shell : Shell) (api : SteamApi) where
  show_tooltip-worker :
      (text : Wide) (a : App env shell api) → (show_tooltip env shell api text a).worker ≡ a.worker
  unfolding show_tooltip
  show_tooltip-worker text a = refl

  idle_text-worker : (a : App env shell api) → (idle_text env shell api a).1.worker ≡ a.worker
  unfolding idle_text on_conn
  idle_text-worker a = ground arith

  tray_text-worker :
      (status : SyncStatus) (a : App env shell api)
      → (tray_text env shell api status a).1.worker ≡ a.worker
  unfolding tray_text
  tray_text-worker SyncStatus.idle a = idle_text-worker a
  tray_text-worker _ a = refl

  update_tray-worker : (a : App env shell api) → (update_tray env shell api a).worker ≡ a.worker
  unfolding update_tray show_tooltip
  update_tray-worker a = tray_text-worker a.worker.0.status.status a

  shown-worker :
      (changed : Bool) (a : App env shell api)
      → (if changed
          then update_tooltip_for_key_state env shell api a
          else update_tray env shell api a).worker
        ≡ a.worker
  unfolding update_tooltip_for_key_state show_tooltip
  shown-worker true a = refl
  shown-worker false a = update_tray-worker a

  refreshed-worker :
      (has : Bool) (a : App env shell api) (v : View env)
      → (if has then record a { view = v } else a).worker ≡ a.worker
  refreshed-worker has a v = ground arith

  apply_outcome-worker :
      (o : SettingsOutcome) (a : App env shell api)
      → (apply_outcome env shell api o a).worker.1 ≡ (
          if o.cache_cleared
          then request_manual_refresh a.worker.1
          else if o.key_changed || o.preferences_changed
          then notify_settings_changed a.worker.1
          else a.worker.1)
  unfolding apply_outcome request_clear_cache
  apply_outcome-worker o a = ground arith

  -- What the worker is told is what the outcome of the dialog says.
  on_settings-worker :
      (n : Answers env shell api) (a : App env shell api)
      → (on_settings env shell api n a).worker.1 ≡ (
          if n.outcome.cache_cleared
          then request_manual_refresh a.worker.1
          else if n.outcome.key_changed || n.outcome.preferences_changed
          then notify_settings_changed a.worker.1
          else a.worker.1)
  unfolding on_settings
  on_settings-worker n a =
      let after = record a {
        view = record a.view { hive = n.hive_after };
        has_stored_key = n.key_after;
      } in
      let asked = apply_outcome env shell api n.outcome after in
      let events = λ (b : App env shell api). b.worker.1 in
      let told =
        ap (λ (w : State api.Net × Events). w.1)
          (shown-worker n.outcome.key_changed _
            ∙ refreshed-worker asked.has_window asked (on_settings_changed env asked.view)) in
      told ∙ apply_outcome-worker n.outcome after

  ask-IsAsked :
      (o : SettingsOutcome) (e : Events)
      → e.manual ≢ none
      → e.settings ≢ none
      → o.key_changed ≡ true
      → IsAsked (
          if o.cache_cleared
          then request_manual_refresh e
          else if o.key_changed || o.preferences_changed
          then notify_settings_changed e
          else e)
  unfolding request_manual_refresh notify_settings_changed
  ask-IsAsked o e m c changed = elim (Bool-cases o.cache_cleared) [
    | inl cleared ↦ rw cleared (inl (set_event-signals e.manual m))
    | inr kept ↦ rw (kept, changed) (inr (set_event-signals e.settings c))
  ]

module _ (files : FileApi) (dpapi : Dpapi) (path : Wide) (not_found : files.Disk → Bool) where
  module _ (env : Surroundings) (shell : Shell) (api : SteamApi)
      (wide_to_secure_utf8 : Wide → Bytes) where
    module _ (run : RunKey) (exe : Wide) where
      abbrev Dialog : Type 0
      Dialog =
          Settings (stored_keys files dpapi path not_found api wide_to_secure_utf8) env.reg run exe

      abbrev DialogCommands : Type 0
      DialogCommands = List (
          DialogCommand (stored_keys files dpapi path not_found api wide_to_secure_utf8) env.reg run
            exe)

      unfoldable pub dialog_after : DialogCommands → Dialog → SettingsOutcome × Dialog
      dialog_after cs blank =
          show_settings_dialog (stored_keys files dpapi path not_found api wide_to_secure_utf8)
            env.reg run exe cs blank

      -- OnSettings, with the commands of the user in the dialog
      unfoldable pub open_settings : DialogCommands → Dialog → App env shell api → App env shell api
      unfolding dialog_after
      open_settings cs blank a =
          let (outcome, after) = dialog_after cs blank in
          on_settings env shell api
            (record {
              outcome = outcome;
              hive_after = after.hive;
              key_after = has_stored_key files dpapi path after.disk;
              chosen = no_command;
            })
            a

      module _ (laws : FileLaws files) where
        stored_keys-KeepsOnFailure :
            ((d : files.Disk)
              → (files.delete_file path d).0 ≡ false
              → laws.contents path (files.delete_file path d).1 ≡ laws.contents path d)
            → KeepsOnFailure
                (stored_keys files dpapi path not_found api wide_to_secure_utf8)
                (laws.contents path)
        unfolding remove
        stored_keys-KeepsOnFailure delete_fails = record {
          store_fails = λ key d failed. elim (store-IsStored files laws dpapi path key d) [
            | inl (worked, stored) ↦ ground arith
            | inr (refused, same) ↦ same
          ];
          remove_fails = λ d failed. ground (arith, delete_fails d);
        }

        -- Where the file calls follow their laws, and a DeleteFileW that fails leaves the file: a key
        -- file that is another after the settings dialog, whatever the user did in it, leaves an
        -- event signalled that a started worker is asked by.
        pub open_settings-asks :
            ((d : files.Disk)
              → (files.delete_file path d).0 ≡ false
              → laws.contents path (files.delete_file path d).1 ≡ laws.contents path d)
            → (cs : DialogCommands) (blank : Dialog) (a : App env shell api)
            → a.worker.1.manual ≢ none
            → a.worker.1.settings ≢ none
            → (laws.contents path (dialog_after cs blank).1.disk ≡ laws.contents path blank.disk)
              ⊎ IsAsked (open_settings cs blank a).worker.1
        unfolding open_settings
        open_settings-asks delete_fails cs blank a m c =
            let keys = stored_keys files dpapi path not_found api wide_to_secure_utf8 in
            elim (show_settings_dialog-notices keys env.reg run exe (laws.contents path)
              (stored_keys-KeepsOnFailure delete_fails) cs blank) [
                | inl same ↦ inl same
                | inr changed ↦ inr (
                    subst IsAsked (sym (on_settings-worker env shell api _ a))
                      (ask-IsAsked env shell api (dialog_after cs blank).0 a.worker.1 m c changed))
              ]
