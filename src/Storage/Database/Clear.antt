-- ===== src/Storage/Database/Clear.antt =====
-- `ClearAllSales` is one atomic change of the tables.
use steam_sales_tray.Shared.{◌≡◌, ◌⊎◌, inl, inr, Bool-cases, true, false, none, some, [], arith}
use steam_sales_tray.Storage.Connection.{Tables, Connection, committed, Change}
use steam_sales_tray.Storage.Connection.Atomic.{
  then_change, statement-Performs, ⊳-Performs, transaction-Atomic, when_open-Atomic, Atomic,
}
use steam_sales_tray.Storage.Database.{
  zero_mark, delete_sales, delete_products, reset_sync_state, clear_body, clear_all_sales,
}

abbrev pub clear_change : Change
clear_change = then_change delete_sales (then_change delete_products reset_sync_state)

-- No sales and no products are left, and the next synchronisation starts anew: with the mark "0" and
-- no backfill cursor. The last check and the last error stay.
pub record IsCleared (t t' : Tables) : Type 0 where
  pub sales : t'.daily_product_sales ≡ []
  pub products : t'.products ≡ []
  pub mark : t'.sync_state.changed_dates_highwatermark ≡ zero_mark
  pub cursor : t'.sync_state.backfill_cursor ≡ none
  pub check : t'.sync_state.last_successful_check_utc ≡ t.sync_state.last_successful_check_utc
  pub error : t'.sync_state.last_error ≡ t.sync_state.last_error

pub clear_change-IsCleared : (t t' : Tables) → clear_change t ≡ some t' → IsCleared t t'
unfolding then_change delete_sales delete_products reset_sync_state
clear_change-IsCleared t t' h = record {
  sales = ground arith;
  products = ground arith;
  mark = ground arith;
  cursor = ground arith;
  check = ground arith;
  error = ground arith;
}

pub clear_all_sales-Atomic : Atomic clear_change clear_all_sales
unfolding clear_all_sales clear_body
clear_all_sales-Atomic = when_open-Atomic (
    transaction-Atomic (
      ⊳-Performs (statement-Performs _) (⊳-Performs (statement-Performs _) (statement-Performs _))))

-- Whatever the engine answers: either `ClearAllSales` returns true and what is committed has no
-- sales and no products, the high-water mark "0" and no backfill cursor, with the last check and the
-- last error as they were; or it returns false and what is committed is as it was.
pub clear_all_sales-atomic :
    (c : Connection)
    → (((clear_all_sales c).0 ≡ true) × IsCleared (committed c) (committed (clear_all_sales c).1))
      ⊎ (((clear_all_sales c).0 ≡ false) × (committed (clear_all_sales c).1 ≡ committed c))
clear_all_sales-atomic c = elim (Bool-cases (clear_all_sales c).0) [
  | inl h ↦ inl (h, clear_change-IsCleared _ _ (clear_all_sales-Atomic.works c h).2)
  | inr h ↦ inr (h, clear_all_sales-Atomic.fails c h)
]
