-- ===== src/App/Main.antt =====
-- app/Main.cpp: the command line, the message to an instance that runs already, and the entry of the
-- program. The arguments, the windows and their messages are parameters.
use steam_sales_tray.Shared.{
  ℕ, Bool, true, false, Option, none, some, List, [], ◌∷◌, drop, ◌==◌, if◌then◌else◌,
}
use steam_sales_tray.Shared.Bytes.{Wide, codes, bytes_eq}
use steam_sales_tray.App.SingleInstance.{Token, Mutexes, single_instance}

pub data LaunchAction : Type 0 where
  normal settings refresh : LaunchAction

pub record LaunchOptions : Type 0 where
  pub action : LaunchAction
  pub background : Bool

abbrev pub no_options : LaunchOptions
no_options = record { action = LaunchAction.normal; background = false }

unfoldable pub parse_arg : LaunchOptions → Wide → LaunchOptions
parse_arg opts arg =
    if bytes_eq arg (codes "--settings")
    then record opts { action = LaunchAction.settings }
    else if bytes_eq arg (codes "--refresh")
    then record opts { action = LaunchAction.refresh }
    else if bytes_eq arg (codes "--background")
    then record opts { background = true }
    else opts

unfoldable pub parse_args : LaunchOptions → List Wide → LaunchOptions
unfolding parse_arg
parse_args opts [] = opts
parse_args opts (arg ∷ args) = parse_args (parse_arg opts arg) args

-- `argv` of CommandLineToArgvW, where it succeeds; the first is the program itself
unfoldable pub parse_command_line : Option (List Wide) → LaunchOptions
unfolding parse_args
parse_command_line none = no_options
parse_command_line (some argv) = parse_args no_options (drop 1 argv)

unfoldable pub message_name : LaunchAction → Wide
message_name LaunchAction.settings = codes "SteamSalesTray.ShowSettings.v1"
message_name LaunchAction.refresh = codes "SteamSalesTray.Refresh.v1"
message_name LaunchAction.normal = codes "SteamSalesTray.ShowSales.v1"

pub record Desktop : Type 1 where
  pub Screen : Type 0
  -- FindWindowW of the class and the title of the main window
  pub find_window : Screen → Option ℕ
  -- RegisterWindowMessageW
  pub register_message : Wide → ℕ
  pub post_message : ℕ → ℕ → Screen → Screen
  pub set_foreground_window : ℕ → Screen → Screen

module _ (desk : Desktop) where
  unfoldable pub signal_existing_instance : LaunchAction → desk.Screen → Bool × desk.Screen
  unfolding message_name
  signal_existing_instance action s = elim (desk.find_window s) [
    | none ↦ (false, s)
    | some existing ↦
        let message = desk.register_message (message_name action) in
        if message == 0
        then (false, s)
        else (true, desk.set_foreground_window existing (desk.post_message existing message s))
  ]

  -- wWinMain, in a process of a session; `run` is App::Run
  unfoldable pub win_main :
      (m : Mutexes) (run : desk.Screen → ℕ × desk.Screen)
      → ℕ
      → Token
      → Option (List Wide)
      → m.Kernel
      → desk.Screen
      → ℕ × desk.Screen
  unfolding parse_command_line signal_existing_instance
  win_main m run session token argv k s =
      let opts = parse_command_line argv in
      let (guard, k') = single_instance m session token k in
      if guard.is_primary then run s else (0, (signal_existing_instance opts.action s).1)
