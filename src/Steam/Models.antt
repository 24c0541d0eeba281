-- ===== src/Steam/Models.antt =====
-- steam/SteamModels.h
use steam_sales_tray.Shared.{List, Bool}
use steam_sales_tray.Shared.Bytes.{Bytes}
use steam_sales_tray.Shared.Word.{Int64}

pub record ChangedDates : Type 0 where
  pub dates : List Bytes
  pub result_highwatermark : Bytes

pub record DetailedSalesRecord : Type 0 where
  pub line_item_type : Bytes
  pub package_sale_type : Bytes
  pub primary_app_id : Int64
  pub primary_app_name : Bytes
  pub net_units_sold : Int64
  pub gross_units_sold : Int64
  pub gross_units_returned : Int64

pub record DetailedSalesPage : Type 0 where
  pub records : List DetailedSalesRecord
  pub max_id : Bytes
  pub has_max_id : Bool
