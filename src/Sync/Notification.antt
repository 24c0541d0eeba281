-- ===== src/Sync/Notification.antt =====
-- sync/SalesSyncService.cpp: `LifetimeSnapshot` and `BuildNotification`. A `std::unordered_map` is
-- walked in an order of its own: the snapshots are lists in that order.
use steam_sales_tray.Shared.{
  ℕ, ◌+◌, Bool, not, ◌&&◌, List, [], ◌∷◌, ◌++◌, is_empty, ltb, ◌==◌, if◌then◌else◌,
}
use steam_sales_tray.Shared.Bytes.{Wide, codes}
use steam_sales_tray.Shared.Word.{Int64, sub64, is_negative}
use steam_sales_tray.Platform.StringUtil.{format_thousands}
use steam_sales_tray.Storage.Models.{ProductUnits}

unfoldable pub previous_units : Int64 → List ProductUnits → Int64
previous_units a [] = 0
previous_units a (p ∷ snapshot) = if p.app_id == a then p.units else previous_units a snapshot

abbrev pub max_lines : ℕ
max_lines = 6

-- delta > 0
unfoldable pub is_positive : Int64 → Bool
is_positive delta = not (is_negative delta) && not (delta == 0)

unfoldable pub notification_line : Wide → Int64 → Wide
notification_line name delta = name ++ (codes ": +" ++ (format_thousands delta ++ codes "\n"))

-- the loop over `after`, with the number of lines so far
unfoldable pub notification_lines : ℕ → List ProductUnits → List ProductUnits → Wide
notification_lines lines before [] = []
notification_lines lines before (info ∷ after) =
    let delta = sub64 info.units (previous_units info.app_id before) in
    let shown = is_positive delta && ltb lines max_lines in
    let rest = notification_lines (if shown then lines + 1 else lines) before after in
    if shown then notification_line info.display_name delta ++ rest else rest

unfoldable pub build_notification : List ProductUnits → List ProductUnits → Int64 → Wide
build_notification before after today_net =
    let body = notification_lines 0 before after in
    if is_empty body
    then []
    else body ++ (codes "Today: " ++ (format_thousands today_net ++ codes " net units"))
