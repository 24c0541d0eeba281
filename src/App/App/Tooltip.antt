-- ===== src/App/App/Tooltip.antt =====
-- What the tray icon says when a pass of the worker has ended: app/App.cpp with the worker of
-- sync/SalesSyncService.cpp and the icon of tray/TrayIcon.cpp.
use steam_sales_tray.App.App.{
  App, on_conn, show_tooltip, idle_text, tray_text, update_tray, refresh_window,
  maybe_show_notification, on_worker_message,
}
use steam_sales_tray.Ui.SalesWindow.{Surroundings}
use steam_sales_tray.Storage.SettingsStore.{get_hide_lifetime}
use steam_sales_tray.Tray.TrayIcon.{
  NotifyIconData, nim_modify, Shell, TrayIcon, tip_of, identity_of, build_data, set_tooltip,
  show_balloon,
}
use steam_sales_tray.Tray.TrayIcon.Shown.{ShownIcon, ShellLaws}
use steam_sales_tray.Sync.Service.Monad.{
  SyncStatus, missing_api_key, idle, syncing, offline, authentication_failed, api_error,
  parse_error, database_error, SteamApi, State, Message, sync_started, sync_progress,
  sync_completed, sync_failed, totals_changed,
}
use steam_sales_tray.Sync.Worker.{Round, run}
use steam_sales_tray.Sync.Worker.Waits.{run-IsAtRest}
use steam_sales_tray.Shared.{
  ℕ, zero, suc, inl, inr, ◌≡◌, ◌≢◌, refl, ap, sym, subst, ◌∙◌, true, false, Option, some, List, [],
  ◌∷◌, is_empty, ◌==◌, arith, Bool-cases,
}
use steam_sales_tray.Shared.Bytes.{Bytes, Wide, codes}

abbrev updating : Wide
updating = codes "Steam Sales - Updating…"

-- the unit at a position, 0 past the end
abbrev unit_at : ℕ → Wide → ℕ
unit_at n [] = 0
unit_at zero (c ∷ text) = c
unit_at (suc n) (c ∷ text) = unit_at n text

tip_apart :
    (n : ℕ) (s t : Wide)
    → (unit_at n (tip_of s) == unit_at n (tip_of t)) ≡ false
    → tip_of s ≢ tip_of t
tip_apart n s t h e = ground (arith, ap (unit_at n) e)

module _ (env : Surroundings) (shell : Shell) (api : SteamApi) where
  idle_text-unit :
      (a : App env shell api)
      → (unit_at 14 (tip_of (idle_text env shell api a).0) == unit_at 14 (tip_of updating)) ≡ false
  unfolding idle_text codes tip_of
  idle_text-unit a = elim (Bool-cases a.db_open) [
    | inl opened ↦ elim (Bool-cases (get_hide_lifetime env.reg a.view.hive)) [
      | inl hidden ↦ rw (opened, hidden) refl
      | inr visible ↦ rw (opened, visible) refl
    ]
    | inr closed ↦ rw closed refl
  ]

  tray_text-ne :
      (status : SyncStatus) (a : App env shell api)
      → status ≢ syncing
      → tip_of (tray_text env shell api status a).0 ≢ tip_of updating
  unfolding tray_text codes tip_of
  tray_text-ne missing_api_key a h =
      tip_apart 14 (tray_text env shell api missing_api_key a).0 updating refl
  tray_text-ne idle a h = tip_apart 14 (idle_text env shell api a).0 updating (idle_text-unit a)
  tray_text-ne syncing a h = absurd (h refl)
  tray_text-ne offline a h = tip_apart 19 (tray_text env shell api offline a).0 updating refl
  tray_text-ne authentication_failed a h =
      tip_apart 14 (tray_text env shell api authentication_failed a).0 updating refl
  tray_text-ne api_error a h = tip_apart 19 (tray_text env shell api api_error a).0 updating refl
  tray_text-ne parse_error a h =
      tip_apart 19 (tray_text env shell api parse_error a).0 updating refl
  tray_text-ne database_error a h =
      tip_apart 19 (tray_text env shell api database_error a).0 updating refl

  -- the icon of the object, and the shell's
  abbrev tray_of : App env shell api → TrayIcon × shell.Sys
  tray_of a = (a.tray, a.sys)

  tray_text-keeps :
      (status : SyncStatus) (a : App env shell api)
      → tray_of (tray_text env shell api status a).1 ≡ tray_of a
  unfolding tray_text idle_text on_conn
  tray_text-keeps missing_api_key a = refl
  tray_text-keeps idle a = ground arith
  tray_text-keeps syncing a = refl
  tray_text-keeps offline a = refl
  tray_text-keeps authentication_failed a = refl
  tray_text-keeps api_error a = refl
  tray_text-keeps parse_error a = refl
  tray_text-keeps database_error a = refl

  show_tooltip-shows :
      (laws : ShellLaws shell) (text : Wide) (a : App env shell api) (x : ShownIcon)
      → ((d : NotifyIconData) → (shell.notify nim_modify d a.sys).0 ≡ true)
      → a.tray.added ≡ true
      → laws.shown (identity_of a.tray) a.sys ≡ some x
      → let after = show_tooltip env shell api text a in
        laws.shown (identity_of after.tray) after.sys ≡ some (record x { tip = some (tip_of text) })
  unfolding show_tooltip set_tooltip build_data identity_of
  show_tooltip-shows laws text a x works on shown =
      rw on (laws.modifies_tip _ a.sys x _ (works _) shown refl)

  refresh_window-keeps :
      (a : App env shell api) → tray_of (refresh_window env shell api a) ≡ tray_of a
  unfolding refresh_window
  refresh_window-keeps a = ground arith

  -- the icon under the object's identity, for a shell with laws
  abbrev shown_of : ShellLaws shell → TrayIcon × shell.Sys → Option ShownIcon
  shown_of laws w = laws.shown (identity_of w.0) w.1

  maybe_show_notification-shows :
      (laws : ShellLaws shell) (a : App env shell api)
      → shown_of laws (tray_of (maybe_show_notification env shell api a))
        ≡ shown_of laws (tray_of a)
  unfolding maybe_show_notification show_balloon build_data
  maybe_show_notification-shows laws a =
      elim (Bool-cases (is_empty a.worker.0.status.notification)) [
        | inl e ↦ rw e refl
        | inr e ↦ elim (Bool-cases a.tray.added) [
          | inl on ↦ rw (e, on) (laws.keeps_tip _ a.sys refl)
          | inr off ↦ rw (e, off) refl
        ]
      ]

  on_worker_message-shows :
      (laws : ShellLaws shell) (m : Message) (a : App env shell api)
      → shown_of laws (tray_of (on_worker_message env shell api m a))
        ≡ shown_of laws (tray_of (update_tray env shell api a))
  unfolding on_worker_message
  on_worker_message-shows laws sync_started a = ap (shown_of laws) (refresh_window-keeps _)
  on_worker_message-shows laws sync_progress a = ap (shown_of laws) (refresh_window-keeps _)
  on_worker_message-shows laws sync_completed a = ap (shown_of laws) (refresh_window-keeps _)
  on_worker_message-shows laws sync_failed a = ap (shown_of laws) (refresh_window-keeps _)
  on_worker_message-shows laws totals_changed a =
      maybe_show_notification-shows laws _ ∙ ap (shown_of laws) (refresh_window-keeps _)

  update_tray-shows :
      (laws : ShellLaws shell) (a : App env shell api) (x : ShownIcon)
      → ((d : NotifyIconData) → (shell.notify nim_modify d a.sys).0 ≡ true)
      → a.tray.added ≡ true
      → shown_of laws (tray_of a) ≡ some x
      → shown_of laws (tray_of (update_tray env shell api a))
        ≡ some (record x {
          tip = some (tip_of (tray_text env shell api a.worker.0.status.status a).0);
        })
  unfolding update_tray
  update_tray-shows laws a x works on shown =
      let same = tray_text-keeps a.worker.0.status.status a in
      let (text, a') = tray_text env shell api a.worker.0.status.status a in
      show_tooltip-shows laws text a' x
        (subst
          (λ (w : TrayIcon × shell.Sys).
            (d : NotifyIconData) → (shell.notify nim_modify d w.1).0 ≡ true)
          (sym same) works)
        (ap (λ w. w.0.added) same ∙ on) (ap (shown_of laws) same ∙ shown)

  -- Whenever the worker is between two passes, whatever the passes before came to, the icon no longer
  -- says that it is updating once the main window has handled any message of the worker: the shell
  -- shows the icon with a tip other than "Steam Sales - Updating…", where it shows the icon before and
  -- NIM_MODIFY works in the state that it is in then. The code reads no result of NIM_MODIFY.
  pub on_worker_message-at_rest :
      (laws : ShellLaws shell) (age : Bytes → ℕ) (first : Round) (rounds : List Round)
      (start : State api.Net) (m : Message) (a : App env shell api) (x : ShownIcon)
      → a.worker.0 ≡ (run api age first rounds start).state
      → ((d : NotifyIconData) → (shell.notify nim_modify d a.sys).0 ≡ true)
      → a.tray.added ≡ true
      → laws.shown (identity_of a.tray) a.sys ≡ some x
      → let after = on_worker_message env shell api m a in
        (tip : Wide) × (laws.shown (identity_of after.tray) after.sys
          ≡ some (record x { tip = some tip }))
        × (tip ≢ tip_of (codes "Steam Sales - Updating…"))
  on_worker_message-at_rest laws age first rounds start m a x ended works on shown =
      let status = a.worker.0.status.status in
      (
        tip_of (tray_text env shell api status a).0,
        on_worker_message-shows laws m a ∙ update_tray-shows laws a x works on shown,
        tray_text-ne status a λ e.
            run-IsAtRest api age first rounds start (ap (λ w. w.status.status) (sym ended) ∙ e),
      )
