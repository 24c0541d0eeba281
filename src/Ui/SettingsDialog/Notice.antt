-- ===== src/Ui/SettingsDialog/Notice.antt =====
-- The outcome of the dialog says whether the stored key has changed.
use steam_sales_tray.Shared.{
  ◌≡◌, refl, ◌∙◌, sym, ap, ◌⊎◌, inl, inr, Bool, Bool-cases, true, false, ◌||◌, List, [], ◌∷◌,
  if◌then◌else◌, arith,
}
use steam_sales_tray.Shared.Bytes.{Bytes, Wide}
use steam_sales_tray.Platform.StartupManager.{RunKey}
use steam_sales_tray.Storage.SettingsStore.{Registry}
use steam_sales_tray.Ui.Controls.{Keys, show_result, key_changed}
use steam_sales_tray.Ui.SettingsDialog.Key.{on_save-key}
use steam_sales_tray.Ui.SettingsDialog.{
  Settings, set_key_status_label, on_init_dialog, on_toggle_show_key, on_test_connection,
  on_clear_cache, on_remove_key, on_save, DialogCommand, edited, show_key, test_clicked, ok_clicked,
  cancelled, clear_clicked, remove_clicked, end_dialog, dialog_proc, run_dialog,
  show_settings_dialog,
}

-- A store and a removal that fail leave what `view` sees of the stored key.
pub record KeepsOnFailure (keys : Keys) {X : Type 0} (view : keys.Disk → X) : Type 0 where
  pub store_fails :
      (key : Bytes) (d : keys.Disk)
      → (keys.store key d).0 ≡ false
      → view (keys.store key d).1 ≡ view d
  pub remove_fails : (d : keys.Disk) → (keys.remove d).0 ≡ false → view (keys.remove d).1 ≡ view d

module _ (keys : Keys) (reg : Registry) (run : RunKey) (exe : Wide) where
  module _ {X : Type 0} (view : keys.Disk → X) where
    -- The key is as it was, or the outcome says that it was changed.
    record IsNoticed (s t : Settings keys reg run exe) : Type 0 where
      stays : s.dialog.outcome.key_changed ≡ true → t.dialog.outcome.key_changed ≡ true
      noticed : (view t.disk ≡ view s.disk) ⊎ (t.dialog.outcome.key_changed ≡ true)

    IsNoticed-refl : (s : Settings keys reg run exe) → IsNoticed s s
    IsNoticed-refl s = record { stays = λ h. h; noticed = inl refl }

    IsNoticed-trans :
        (s t u : Settings keys reg run exe) → IsNoticed s t → IsNoticed t u → IsNoticed s u
    IsNoticed-trans s t u p q = record {
      stays = λ h. q.stays (p.stays h);
      noticed = elim p.noticed [
        | inr changed ↦ inr (q.stays changed)
        | inl same ↦ elim q.noticed [ inr changed ↦ inr changed | inl again ↦ inl (again ∙ same) ]
      ];
    }

    -- A step that leaves the disk and this part of the outcome.
    quiet-IsNoticed :
        (s t : Settings keys reg run exe)
        → t.disk ≡ s.disk
        → t.dialog.outcome.key_changed ≡ s.dialog.outcome.key_changed
        → IsNoticed s t
    quiet-IsNoticed s t d o = record { stays = λ h. o ∙ h; noticed = inl (ap view d) }

    module _ (laws : KeepsOnFailure keys view) where
      stored-IsNoticed :
          {key : Bytes} (s : Settings keys reg run exe) (r : Bool × Settings keys reg run exe)
          → r.0 ≡ (keys.store key s.disk).0
          → r.1.disk ≡ (keys.store key s.disk).1
          → r.1.dialog.outcome.key_changed ≡ (r.0 || s.dialog.outcome.key_changed)
          → IsNoticed s r.1
      stored-IsNoticed {key} s (true, t) closes disk changed = record {
        stays = λ h. changed;
        noticed = inr changed;
      }
      stored-IsNoticed {key} s (false, t) closes disk changed = record {
        stays = λ h. changed ∙ h;
        noticed = inl (ap view disk ∙ laws.store_fails key s.disk (sym closes));
      }

      on_save-IsNoticed :
          (s : Settings keys reg run exe) → IsNoticed s (on_save keys reg run exe s).1
      on_save-IsNoticed s = elim (on_save-key keys reg run exe s) [
        | inl (empty, closes, disk, done, changed) ↦ quiet-IsNoticed s _ disk changed
        | inr (inl (validate, e, rejected, closes, disk, done, changed)) ↦
            quiet-IsNoticed s _ disk changed
        | inr (inr (entered, accepted, (closes, disk, done, changed))) ↦
            stored-IsNoticed s (on_save keys reg run exe s) closes disk changed
      ]

      on_remove_key-IsNoticed :
          (confirmed : Bool) (s : Settings keys reg run exe)
          → IsNoticed s (on_remove_key keys reg run exe confirmed s)
      unfolding on_remove_key set_key_status_label show_result key_changed
      on_remove_key-IsNoticed confirmed s = elim (Bool-cases (keys.remove s.disk).0) [
        | inl removed ↦ record { stays = λ h. ground (arith); noticed = ground arith }
        | inr failed ↦ record {
          stays = λ h. ground (arith);
          noticed = ground (arith, laws.remove_fails s.disk);
        }
      ]

      on_test_connection-IsNoticed :
          (s : Settings keys reg run exe) → IsNoticed s (on_test_connection keys reg run exe s)
      unfolding on_test_connection show_result
      on_test_connection-IsNoticed s = record {
        stays = λ h. ground (arith);
        noticed = inl (ground arith);
      }

      on_clear_cache-IsNoticed :
          (confirmed : Bool) (s : Settings keys reg run exe)
          → IsNoticed s (on_clear_cache keys reg run exe confirmed s)
      unfolding on_clear_cache show_result
      on_clear_cache-IsNoticed true s = quiet-IsNoticed s _ refl refl
      on_clear_cache-IsNoticed false s = quiet-IsNoticed s _ refl refl

      ok-IsNoticed :
          (s : Settings keys reg run exe) (r : Bool × Settings keys reg run exe)
          → IsNoticed s r.1
          → IsNoticed s (if r.0 then end_dialog keys reg run exe r.1 else r.1)
      unfolding end_dialog
      ok-IsNoticed s (true, t) h = record { stays = h.stays; noticed = h.noticed }
      ok-IsNoticed s (false, t) h = h

      dialog_proc-IsNoticed :
          (c : DialogCommand keys reg run exe) (s : Settings keys reg run exe)
          → IsNoticed s (dialog_proc keys reg run exe c s)
      unfolding dialog_proc on_toggle_show_key end_dialog
      dialog_proc-IsNoticed (edited controls) s = quiet-IsNoticed s _ refl refl
      dialog_proc-IsNoticed (show_key show) s = quiet-IsNoticed s _ refl refl
      dialog_proc-IsNoticed test_clicked s = on_test_connection-IsNoticed s
      dialog_proc-IsNoticed ok_clicked s =
          ok-IsNoticed s (on_save keys reg run exe s) (on_save-IsNoticed s)
      dialog_proc-IsNoticed cancelled s = quiet-IsNoticed s _ refl refl
      dialog_proc-IsNoticed (clear_clicked confirmed) s = on_clear_cache-IsNoticed confirmed s
      dialog_proc-IsNoticed (remove_clicked confirmed) s = on_remove_key-IsNoticed confirmed s

      open_or_ended :
          (ended : Bool) (s t : Settings keys reg run exe)
          → IsNoticed s t
          → IsNoticed s (if ended then s else t)
      open_or_ended true s t h = IsNoticed-refl s
      open_or_ended false s t h = h

      run_dialog-IsNoticed :
          (cs : List (DialogCommand keys reg run exe)) (s : Settings keys reg run exe)
          → IsNoticed s (run_dialog keys reg run exe cs s)
      unfolding run_dialog
      run_dialog-IsNoticed [] s = IsNoticed-refl s
      run_dialog-IsNoticed (c ∷ cs) s =
          let t = dialog_proc keys reg run exe c s in
          open_or_ended s.dialog.ended s (run_dialog keys reg run exe cs t)
            (IsNoticed-trans s t _ (dialog_proc-IsNoticed c s) (run_dialog-IsNoticed cs t))

      -- Whatever the user does in the dialog, the stored key is as it was, or the outcome says that
      -- it was changed.
      pub show_settings_dialog-notices :
          (cs : List (DialogCommand keys reg run exe)) (blank : Settings keys reg run exe)
          → let (outcome, after) = show_settings_dialog keys reg run exe cs blank in
            (view after.disk ≡ view blank.disk) ⊎ (outcome.key_changed ≡ true)
      unfolding show_settings_dialog on_init_dialog set_key_status_label
      show_settings_dialog-notices cs blank =
          (run_dialog-IsNoticed cs (on_init_dialog keys reg run exe blank)).noticed
