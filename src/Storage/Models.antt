-- ===== src/Storage/Models.antt =====
-- storage/Models.h
use steam_sales_tray.Shared.{◌≡◌, Bool, false, ◌||◌, List, [], ◌∷◌, ◌==◌}
use steam_sales_tray.Shared.Bytes.{Bytes, Wide}
use steam_sales_tray.Shared.Word.{Int64}

pub record DailyProductRow : Type 0 where
  pub app_id : Int64
  pub display_name : Bytes
  pub net_units_sold : Int64
  pub gross_units_sold : Int64
  pub gross_units_returned : Int64

pub record ProductUnits : Type 0 where
  pub app_id : Int64
  pub display_name : Wide
  pub units : Int64

abbrev pub has_app : Int64 → List DailyProductRow → Bool
has_app a [] = false
has_app a (row ∷ rows) = row.app_id == a || has_app a rows

-- No two rows are of one app.
abbrev pub Distinct : List DailyProductRow → Type 0
Distinct [] = Unit
Distinct (row ∷ rows) = (has_app row.app_id rows ≡ false) × Distinct rows
