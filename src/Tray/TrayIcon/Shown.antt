-- ===== src/Tray/TrayIcon/Shown.antt =====
-- What the shell shows of the icon of tray/TrayIcon.cpp over a sequence of operations.
use steam_sales_tray.Tray.TrayIcon.{
  Nim, nim_add, nim_modify, nim_set_focus, nim_set_version, Identity, NotifyIconData, Shell,
  TrayIcon, notifyicon_version_4, identity_of, build_data, tip_of, try_add, clear_stale, set_added,
  or_by_uid, add, recreate, set_tooltip, show_balloon, set_focus, remove_icon,
}
use steam_sales_tray.Shared.{
  ℕ, ◌≡◌, refl, ◌∙◌, inl, inr, Bool, true, false, not, ◌&&◌, ◌||◌, Option, none, some, List, [],
  ◌∷◌, arith, Bool-cases,
}
use steam_sales_tray.Shared.Bytes.{Wide}

pub record ShownIcon : Type 0 where
  pub callback : Option ℕ
  pub tip : Option Wide
  pub version : ℕ

-- The behaviour of Shell_NotifyIconW, on the icon that is shown under an identity, for a call that it
-- says has worked; what it does where it returns FALSE is left open. A NIM_MODIFY without NIF_TIP and
-- a NIM_SETFOCUS leave the tip and the version in any case.
pub record ShellLaws (shell : Shell) : Type 0 where
  pub shown : Identity → shell.Sys → Option ShownIcon
  pub adds :
      (d : NotifyIconData) (s : shell.Sys)
      → (shell.notify nim_add d s).0 ≡ true
      → shown d.identity (shell.notify nim_add d s).1
        ≡ some (record { callback = d.callback; tip = d.tip; version = 0 })
  pub sets_version :
      (d : NotifyIconData) (s : shell.Sys) (x : ShownIcon)
      → (shell.notify nim_set_version d s).0 ≡ true
      → shown d.identity s ≡ some x
      → shown d.identity (shell.notify nim_set_version d s).1
        ≡ some (record x { version = d.version })
  pub modifies_tip :
      (d : NotifyIconData) (s : shell.Sys) (x : ShownIcon) (t : Wide)
      → (shell.notify nim_modify d s).0 ≡ true
      → shown d.identity s ≡ some x
      → d.tip ≡ some t
      → shown d.identity (shell.notify nim_modify d s).1 ≡ some (record x { tip = some t })
  pub keeps_tip :
      (d : NotifyIconData) (s : shell.Sys)
      → d.tip ≡ none
      → shown d.identity (shell.notify nim_modify d s).1 ≡ shown d.identity s
  pub focus_keeps :
      (d : NotifyIconData) (s : shell.Sys)
      → shown d.identity (shell.notify nim_set_focus d s).1 ≡ shown d.identity s

-- The calls whose failure the code does not see: it reads the result of NIM_ADD alone, and what
-- NIM_DELETE and NIM_SETFOCUS leave undone shows in no icon that is added.
abbrev is_unread : Nim → Bool
is_unread nim_modify = true
is_unread nim_set_version = true
is_unread _ = false

-- The shell with a note whether all of these calls have worked, since the shell was started.
abbrev pub watched : Shell → Shell
watched shell = record {
  Sys = shell.Sys × Bool;
  notify = λ k d w.
      let (worked, s) = shell.notify k d w.0 in (worked, (s, w.1 && (worked || not (is_unread k))));
}

module _ (shell : Shell) where
  -- the operations of the object; `taskbar_created` is a shell that has lost or kept its icons, and
  -- Recreate after it
  pub data Operation : Type 0 where
    op_add : ℕ → ℕ → ℕ → Wide → Operation
    op_set_tooltip : Wide → Operation
    op_show_balloon : Wide → Wide → Operation
    op_set_focus : Operation
    op_remove : Operation
    taskbar_created : shell.Sys → Operation

  unfoldable pub perform : Operation → TrayIcon × shell.Sys → TrayIcon × shell.Sys
  unfolding add recreate set_tooltip show_balloon set_focus remove_icon
  perform (op_add owner message icon tooltip) (t, s) =
      let (ok, t', s') = add shell owner message icon tooltip t s in (t', s')
  perform (op_set_tooltip tooltip) (t, s) = set_tooltip shell tooltip t s
  perform (op_show_balloon title text) (t, s) = (t, show_balloon shell title text t s)
  perform op_set_focus (t, s) = (t, set_focus shell t s)
  perform op_remove (t, s) = remove_icon shell t s
  perform (taskbar_created s') (t, s) = recreate shell t s'

  unfoldable pub perform_all : List Operation → TrayIcon × shell.Sys → TrayIcon × shell.Sys
  unfolding perform
  perform_all [] w = w
  perform_all (o ∷ os) w = perform_all os (perform o w)

-- the icon as the object has it
abbrev pub icon_of : TrayIcon → ShownIcon
icon_of t = record {
  callback = some t.callback_message;
  tip = some (tip_of t.tooltip);
  version = notifyicon_version_4;
}

module _ (shell : Shell) (laws : ShellLaws shell) where
  open shell use {notify}
  open laws use {shown}

  abbrev Watched : Type 0
  Watched = shell.Sys × Bool

  -- Where all the calls have worked, the icon is shown as the object has it.
  abbrev IsCurrent : TrayIcon → Watched → Type 0
  IsCurrent t w = w.1 ≡ true → shown (identity_of t) w.0 ≡ some (icon_of t)

  -- So it is for an icon that the object counts as added.
  abbrev IsShown : TrayIcon × Watched → Type 0
  IsShown (t, w) = t.added ≡ true → IsCurrent t w

  try_add-shows :
      (t : TrayIcon) (w : Watched)
      → (try_add (watched shell) t w).0 ≡ true
      → IsCurrent t (try_add (watched shell) t w).1
  unfolding try_add
  try_add-shows t (s, all) ok =
      let nid = record (build_data t) {
        callback = some t.callback_message;
        icon = some t.icon;
        tip = some (tip_of t.tooltip);
      } in
      let version = record (build_data t) { version = notifyicon_version_4 } in
      let s1 = (notify nim_add nid s).1 in
      elim (Bool-cases (notify nim_add nid s).0) [
        | inl e ↦ elim (Bool-cases (notify nim_set_version version s1).0) [
          | inl v ↦ rw e (λ fine. laws.sets_version version s1 _ v (laws.adds nid s e))
          | inr v ↦ rw (e, v) (λ fine. ground arith)
        ]
        | inr e ↦ ground arith
      ]

  set_added-IsShown :
      (t : TrayIcon) (x : Bool × Watched)
      → (x.0 ≡ true → IsCurrent t x.1)
      → let (ok, t', w') = set_added (watched shell) t x in IsShown (t', w')
  unfolding set_added identity_of
  set_added-IsShown t (ok, w) h = h

  or_by_uid-IsShown :
      (t : TrayIcon) (x : Bool × Watched)
      → (x.0 ≡ true → IsCurrent t x.1)
      → let (ok, t', w') = or_by_uid (watched shell) t x in IsShown (t', w')
  unfolding or_by_uid
  or_by_uid-IsShown t (true, w) h = set_added-IsShown t (true, w) h
  or_by_uid-IsShown t (false, w) h =
      let u = record t { use_guid = false } in
      elim (Bool-cases t.use_guid) [
        | inl e ↦ rw e (set_added-IsShown u (try_add (watched shell) u w) (try_add-shows u w))
        | inr e ↦ rw e (λ (on : false ≡ true). ground arith)
      ]

  add-IsShown :
      (owner message icon : ℕ) (tooltip : Wide) (t : TrayIcon) (w : Watched)
      → let (ok, t', w') = add (watched shell) owner message icon tooltip t w in IsShown (t', w')
  unfolding add
  add-IsShown owner message icon tooltip t w =
      let u = record t {
        owner = owner;
        callback_message = message;
        icon = icon;
        tooltip = tooltip;
      } in
      or_by_uid-IsShown u _ (try_add-shows u (clear_stale (watched shell) u w))

  perform-IsShown :
      (o : Operation (watched shell)) (w : TrayIcon × Watched)
      → IsShown w
      → IsShown (perform (watched shell) o w)
  unfolding perform recreate set_tooltip show_balloon set_focus remove_icon
  perform-IsShown (op_add owner message icon tooltip) (t, w) h =
      add-IsShown owner message icon tooltip t w
  perform-IsShown (op_set_tooltip tooltip) (t, (s, all)) h = elim (Bool-cases t.added) [
    | inl e ↦
        let u = record t { tooltip = tooltip } in
        let nid = record (build_data u) { tip = some (tip_of tooltip) } in
        elim (Bool-cases (notify nim_modify nid s).0) [
          | inl v ↦ rw e (λ on fine. laws.modifies_tip nid s _ _ v (h e (ground arith)) refl)
          | inr v ↦ rw (e, v) (λ on fine. ground arith)
        ]
    | inr e ↦ rw e (λ on. ground arith)
  ]
  perform-IsShown (op_show_balloon title text) (t, (s, all)) h = elim (Bool-cases t.added) [
    | inl e ↦ rw e (λ on fine. laws.keeps_tip _ s refl ∙ h e (ground arith))
    | inr e ↦ rw e (λ on. ground arith)
  ]
  perform-IsShown op_set_focus (t, (s, all)) h = elim (Bool-cases t.added) [
    | inl e ↦ rw e (λ on fine. laws.focus_keeps _ s ∙ h e (ground arith))
    | inr e ↦ rw e (λ on. ground arith)
  ]
  perform-IsShown op_remove (t, w) h = λ on. ground arith
  perform-IsShown (taskbar_created w') (t, w) h =
      add-IsShown t.owner t.callback_message t.icon t.tooltip (record t { added = false }) w'

  perform_all-IsShown :
      (os : List (Operation (watched shell))) (w : TrayIcon × Watched)
      → IsShown w
      → IsShown (perform_all (watched shell) os w)
  unfolding perform_all
  perform_all-IsShown [] w h = h
  perform_all-IsShown (o ∷ os) w h =
      perform_all-IsShown os (perform (watched shell) o w) (perform-IsShown o w h)

  -- After any sequence of operations that starts with no icon added, an icon that the object counts
  -- as added is shown by the shell under the object's identity, with version 4 of the messages, the
  -- object's message and its tooltip, cut to 127 units, where no NIM_SETVERSION and no NIM_MODIFY has
  -- failed since the shell was started last: the code reads the result of NIM_ADD alone. A new shell
  -- is followed by Recreate.
  pub perform_all-shows :
      (os : List (Operation (watched shell))) (w : TrayIcon × (shell.Sys × Bool))
      → w.0.added ≡ false
      → let (t, (s, all_worked)) = perform_all (watched shell) os w in
        t.added ≡ true → all_worked ≡ true → shown (identity_of t) s ≡ some (icon_of t)
  perform_all-shows os w off = perform_all-IsShown os w λ on. ground arith
