-- ===== src/Storage/Database/Views.antt =====
-- Calls of the database that leave a part of what is committed, its `view`, as it is, whatever the
-- engine answers.
use steam_sales_tray.Shared.{
  List, [], ◌∷◌, ◌≡◌, inl, inr, Bool, true, false, Option, none, some, arith, Option-cases,
  if◌then◌else◌, is_empty,
}
use steam_sales_tray.Shared.Bytes.{Bytes}
use steam_sales_tray.Storage.Connection.{
  SyncState, Tables, Connection, Op, Change, committed, call, prepare, statement, ◌⊳◌,
}
use steam_sales_tray.Storage.Queries.{step_row, fetch_rows, select_rows}
use steam_sales_tray.Storage.Database.{
  set_sync_state_column, clear_backfill_cursor, set_backfill_cursor, set_last_error, read,
}

module _ {X : Type 0} (view : Tables → X) where
  pub record KeepsView {A : Type 0} (f : Connection → A × Connection) : Type 0 where
    pub at : (c : Connection) → view (committed (f c).1) ≡ view (committed c)

  prepare-KeepsView : KeepsView prepare
  unfolding prepare committed
  prepare-KeepsView = record { at = λ c. ground arith }

  step-KeepsView : KeepsView (call (λ c. (true, c)))
  unfolding call committed
  step-KeepsView = record { at = λ c. ground arith }

  ⊳-KeepsView : {m k : Op} → KeepsView m → KeepsView k → KeepsView (m ⊳ k)
  unfolding ◌⊳◌
  ⊳-KeepsView {m} {k} p q = record { at = λ c. ground (arith, p.at c, q.at (m c).1) }

  statement-KeepsView :
      (f : Change) → ((t t' : Tables) → f t ≡ some t' → view t' ≡ view t) → KeepsView (statement f)
  unfolding statement committed
  statement-KeepsView f h = record {
    at = λ c. elim (Option-cases (f c.tables)) [
      | inl e ↦ ground arith
      | inr (t, e) ↦ ground (arith, h c.tables t e)
    ];
  }

  pub set_sync_state_column-KeepsView :
      (update : SyncState → SyncState)
      → ((t : Tables) → view (record t { sync_state = update t.sync_state }) ≡ view t)
      → KeepsView (set_sync_state_column update)
  unfolding set_sync_state_column
  set_sync_state_column-KeepsView update h =
      ⊳-KeepsView prepare-KeepsView (statement-KeepsView _ (λ t t' e. ground (arith, h t)))

  either-KeepsView :
      (b : Bool) {m k : Op} → KeepsView m → KeepsView k → KeepsView (if b then m else k)
  either-KeepsView true p q = p
  either-KeepsView false p q = q

  pub set_last_error-KeepsView :
      (message : Bytes)
      → ((t : Tables) (s : Option Bytes)
          → view (record t { sync_state = record t.sync_state { last_error = s } }) ≡ view t)
      → KeepsView (set_last_error message)
  unfolding set_last_error
  set_last_error-KeepsView message h = set_sync_state_column-KeepsView _ (λ t. h t (some message))

  pub set_backfill_cursor-KeepsView :
      (date : Bytes)
      → ((t : Tables) (s : Option Bytes)
          → view (record t { sync_state = record t.sync_state { backfill_cursor = s } }) ≡ view t)
      → KeepsView (set_backfill_cursor date)
  unfolding set_backfill_cursor clear_backfill_cursor
  set_backfill_cursor-KeepsView date h =
      either-KeepsView (is_empty date) (statement-KeepsView _ (λ t t' e. ground (arith, h t none)))
        (set_sync_state_column-KeepsView _ (λ t. h t (some date)))

  pub read-KeepsView :
      {A : Type 0} (fallback : A) (column : Tables → A) → KeepsView (read fallback column)
  unfolding read
  read-KeepsView fallback column = record { at = (⊳-KeepsView prepare-KeepsView step-KeepsView).at }

  pub step_row-KeepsView : {A : Type 0} (column : Tables → Option A) → KeepsView (step_row column)
  unfolding step_row
  step_row-KeepsView column = record { at = (⊳-KeepsView prepare-KeepsView step-KeepsView).at }

  fetch_rows-KeepsView : {A : Type 0} (rows : List A) → KeepsView (fetch_rows rows)
  unfolding fetch_rows
  fetch_rows-KeepsView [] = record { at = λ c. step-KeepsView.at c }
  fetch_rows-KeepsView (row ∷ rows) = record {
    at = λ c.
        ground
          (arith, step-KeepsView.at c, (fetch_rows-KeepsView rows).at (call (λ d. (true, d)) c).1);
  }

  pub select_rows-KeepsView : {A : Type 0} (rows : Tables → List A) → KeepsView (select_rows rows)
  unfolding select_rows
  select_rows-KeepsView rows = record {
    at = λ c.
        let c' = (prepare c).1 in
        ground (arith, prepare-KeepsView.at c, (fetch_rows-KeepsView (rows c'.tables)).at c');
  }
