-- ===== src/Tray/TrayMenu.antt =====
-- tray/TrayMenu.cpp: the entries of the context menu, and the calls that take the foreground.
use steam_sales_tray.Shared.{
  ℕ, Bool, true, false, not, ◌&&◌, List, [], ◌∷◌, ◌++◌, ◌==◌, if◌then◌else◌,
}
use steam_sales_tray.Shared.Bytes.{Wide, codes}

-- IDM_ constants of resources/Resource.h
pub data Command : Type 0 where
  no_command summary_today summary_yesterday summary_7day summary_30day summary_lifetime view_sales
        refresh_now settings open_financials about exit :
      Command

pub data Entry : Type 0 where
  row : Command → Wide → Bool → Entry
  separator : Entry

pub record SummaryTotals : Type 0 where
  pub today : Wide
  pub yesterday : Wide
  pub week : Wide
  pub month : Wide
  pub lifetime : Wide
  pub show_lifetime : Bool

-- a disabled row, its value after a tab
unfoldable pub summary_row : Command → Wide → Wide → Entry
summary_row id label value = row id (label ++ (9 ∷ value)) false

-- The rows of ShowTrayMenu, each with whether it is enabled.
unfoldable pub menu_entries : SummaryTotals → List Entry
unfolding summary_row
menu_entries totals =
    let lifetime =
      if totals.show_lifetime
      then summary_row summary_lifetime (codes "Lifetime") totals.lifetime ∷ []
      else [] in
    row no_command (codes "Steam Sales") false
    ∷ separator
    ∷ summary_row summary_today (codes "Today") totals.today
    ∷ summary_row summary_yesterday (codes "Yesterday") totals.yesterday
    ∷ summary_row summary_7day (codes "Last 7 Days") totals.week
    ∷ summary_row summary_30day (codes "Last 30 Days") totals.month
    ∷ (lifetime
        ++ (separator
            ∷ row view_sales (codes "View Product Sales…") true
            ∷ row refresh_now (codes "Refresh Now") true
            ∷ row settings (codes "Settings…") true
            ∷ separator
            ∷ row open_financials (codes "Open Steamworks Financials") true
            ∷ row about (codes "About") true
            ∷ separator
            ∷ row exit (codes "Exit") true
            ∷ []))

pub data ForegroundCall : Type 0 where
  attach_thread_input : ℕ → ℕ → Bool → ForegroundCall
  set_foreground : ForegroundCall

-- ForceForeground; a thread of 0 is no thread
unfoldable pub force_foreground : ℕ → ℕ → List ForegroundCall
force_foreground my_thread foreground_thread =
    if not (foreground_thread == 0) && not (foreground_thread == my_thread)
    then attach_thread_input my_thread foreground_thread true
      ∷ set_foreground
      ∷ attach_thread_input my_thread foreground_thread false
      ∷ []
    else set_foreground ∷ []
