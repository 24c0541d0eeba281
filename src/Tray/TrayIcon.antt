-- ===== src/Tray/TrayIcon.antt =====
-- tray/TrayIcon.cpp: the object that keeps the icon in the notification area. The shell is a
-- parameter: a state of any type, and Shell_NotifyIconW. A window or an icon is a number.
pub mod Shown
use steam_sales_tray.Shared.{
  ℕ, ◌≡◌, Bool, true, false, not, Option, none, some, List, [], ◌∷◌, take, if◌then◌else◌,
}
use steam_sales_tray.Shared.Bytes.{Wide}

-- NIM_ADD and the others
pub data Nim : Type 0 where
  nim_add nim_modify nim_delete nim_set_focus nim_set_version : Nim

-- NIF_GUID with the program's GUID, or else a uID
pub data Identity : Type 0 where
  by_guid by_uid : Identity

-- NOTIFYICONDATAW: a field that has a flag is an option, `none` where the flag is not set.
pub record NotifyIconData : Type 0 where
  pub owner : ℕ
  pub identity : Identity
  pub callback : Option ℕ
  pub icon : Option ℕ
  pub tip : Option Wide
  pub info : Option (Wide × Wide)
  pub version : ℕ

pub record Shell : Type 1 where
  pub Sys : Type 0
  pub notify : Nim → NotifyIconData → Sys → Bool × Sys

pub record TrayIcon : Type 0 where
  pub owner : ℕ
  pub callback_message : ℕ
  pub icon : ℕ
  pub tooltip : Wide
  pub use_guid : Bool
  pub added : Bool

abbrev pub notifyicon_version_4 : ℕ
notifyicon_version_4 = 4

unfoldable pub identity_of : TrayIcon → Identity
identity_of t = if t.use_guid then by_guid else by_uid

unfoldable pub build_data : TrayIcon → NotifyIconData
unfolding identity_of
build_data t = record {
  owner = t.owner;
  identity = identity_of t;
  callback = none;
  icon = none;
  tip = none;
  info = none;
  version = 0;
}

-- wcsncpy_s into a field of 128 units
unfoldable pub tip_of : Wide → Wide
tip_of text = take 127 text

module _ (shell : Shell) where
  open shell use {Sys, notify}

  -- the lambda of Add: NIM_SETVERSION follows an NIM_ADD that works
  unfoldable pub try_add : TrayIcon → Sys → Bool × Sys
  unfolding build_data tip_of
  try_add t s =
      let nid = record (build_data t) {
        callback = some t.callback_message;
        icon = some t.icon;
        tip = some (tip_of t.tooltip);
      } in
      let version = record (build_data t) { version = notifyicon_version_4 } in
      let (ok, s1) = notify nim_add nid s in
      if ok then (true, (notify nim_set_version version s1).1) else (false, s1)

  unfoldable pub clear_stale : TrayIcon → Sys → Sys
  unfolding build_data
  clear_stale t s = if t.use_guid then (notify nim_delete (build_data t) s).1 else s

  unfoldable pub set_added : TrayIcon → Bool × Sys → Bool × TrayIcon × Sys
  set_added t (ok, s) = (ok, record t { added = ok }, s)

  -- the fall back to a uID, where the first attempt was made with the GUID
  unfoldable pub or_by_uid : TrayIcon → Bool × Sys → Bool × TrayIcon × Sys
  unfolding set_added try_add
  or_by_uid t (true, s) = set_added t (true, s)
  or_by_uid t (false, s) =
      let u = record t { use_guid = false } in
      if t.use_guid then set_added u (try_add u s) else set_added t (false, s)

  unfoldable pub add : ℕ → ℕ → ℕ → Wide → TrayIcon → Sys → Bool × TrayIcon × Sys
  unfolding or_by_uid clear_stale
  add owner message icon tooltip t s =
      let u = record t {
        owner = owner;
        callback_message = message;
        icon = icon;
        tooltip = tooltip;
      } in
      or_by_uid u (try_add u (clear_stale u s))

  unfoldable pub recreate : TrayIcon → Sys → TrayIcon × Sys
  unfolding add
  recreate t s =
      let (ok, t', s') =
        add t.owner t.callback_message t.icon t.tooltip (record t { added = false }) s in
      (t', s')

  unfoldable pub set_tooltip : Wide → TrayIcon → Sys → TrayIcon × Sys
  unfolding build_data tip_of
  set_tooltip tooltip t s =
      let u = record t { tooltip = tooltip } in
      let nid = record (build_data u) { tip = some (tip_of tooltip) } in
      if t.added then (u, (notify nim_modify nid s).1) else (u, s)

  -- the fields of the title and the text have 64 and 256 units
  unfoldable pub show_balloon : Wide → Wide → TrayIcon → Sys → Sys
  unfolding build_data
  show_balloon title text t s =
      let nid = record (build_data t) { info = some (take 63 title, take 255 text) } in
      if t.added then (notify nim_modify nid s).1 else s

  unfoldable pub set_focus : TrayIcon → Sys → Sys
  unfolding build_data
  set_focus t s = if t.added then (notify nim_set_focus (build_data t) s).1 else s

  unfoldable pub remove_icon : TrayIcon → Sys → TrayIcon × Sys
  unfolding build_data
  remove_icon t s =
      if t.added
      then (record t { added = false }, (notify nim_delete (build_data t) s).1)
      else (t, s)
