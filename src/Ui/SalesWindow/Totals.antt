-- ===== src/Ui/SalesWindow/Totals.antt =====
-- The total of ui/SalesWindow.cpp and the sums that the menu of app/App.cpp shows.
use steam_sales_tray.Ui.SalesWindow.{SalesPeriod, SalesWindow, Surroundings}
use steam_sales_tray.Platform.TimeUtil.{steam_today, steam_date_days_ago}
use steam_sales_tray.Storage.Connection.{DailyProductSale, Connection}
use steam_sales_tray.Storage.Queries.{sum_for_date, sum_for_range, sum_lifetime}
use steam_sales_tray.Shared.{Bool, true, ◌&&◌}
use steam_sales_tray.Shared.Bytes.{bytes_eq, bytes_leb}
use steam_sales_tray.Shared.Word.{Int64}

module _ (env : Surroundings) where
  open env use {clock, utf8_to_wide}

  -- the sum of ComputeSummary for a period
  abbrev pub menu_sum : SalesPeriod → Connection → Int64 × Connection
  menu_sum SalesPeriod.today = sum_for_date (steam_today clock)
  menu_sum SalesPeriod.yesterday = sum_for_date (steam_date_days_ago clock 1)
  menu_sum SalesPeriod.last_7_days = sum_for_range (steam_date_days_ago clock 6) (steam_today clock)
  menu_sum SalesPeriod.last_30_days =
      sum_for_range (steam_date_days_ago clock 29) (steam_today clock)
  menu_sum SalesPeriod.lifetime = sum_lifetime

  -- the sales of a period
  abbrev pub is_in : SalesPeriod → DailyProductSale → Bool
  is_in SalesPeriod.today s = bytes_eq s.financial_date (steam_today clock)
  is_in SalesPeriod.yesterday s = bytes_eq s.financial_date (steam_date_days_ago clock 1)
  is_in SalesPeriod.last_7_days s =
      bytes_leb (steam_date_days_ago clock 6) s.financial_date
      && bytes_leb s.financial_date (steam_today clock)
  is_in SalesPeriod.last_30_days s =
      bytes_leb (steam_date_days_ago clock 29) s.financial_date
      && bytes_leb s.financial_date (steam_today clock)
  is_in SalesPeriod.lifetime s = true
