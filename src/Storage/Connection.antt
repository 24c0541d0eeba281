-- ===== src/Storage/Connection.antt =====
-- One SQLite connection: the tables of storage/Migrations.cpp, the transaction that is open on it,
-- and the answers that the engine will give. The engine is not part of the program: whether a call
-- works is a parameter, the list `outcomes`, from which each call takes one (an empty list means
-- that all later calls work). A call that does not work changes nothing, or rolls the open
-- transaction back, as SQLite documents for its statements.
pub mod Atomic
pub mod FaultFree
use steam_sales_tray.Shared.{ℕ, Bool, true, false, Option, none, some, List, [], ◌∷◌, if◌then◌else◌}
use steam_sales_tray.Shared.Bytes.{Bytes}
use steam_sales_tray.Shared.Word.{Int64}

pub record SyncState : Type 0 where
  pub changed_dates_highwatermark : Bytes
  pub last_successful_check_utc : Option Bytes
  pub last_successful_sync_utc : Option Bytes
  pub last_error : Option Bytes
  pub backfill_cursor : Option Bytes

pub record Product : Type 0 where
  pub app_id : Int64
  pub display_name : Bytes
  pub last_seen_utc : Bytes

pub record DailyProductSale : Type 0 where
  pub financial_date : Bytes
  pub app_id : Int64
  pub gross_units_sold : Int64
  pub gross_units_returned : Int64
  pub net_units_sold : Int64

-- `schema_version` is `none` where the table is absent.
pub record Tables : Type 0 where
  pub schema_version : Option ℕ
  pub has_cursor_column : Bool
  pub sync_state : SyncState
  pub products : List Product
  pub daily_product_sales : List DailyProductSale

pub data Outcome : Type 0 where
  done failed rolled_back : Outcome

-- `saved` holds the tables as they were at BEGIN, while a transaction is open.
pub record Connection : Type 0 where
  pub is_open : Bool
  pub tables : Tables
  pub saved : Option Tables
  pub outcomes : List Outcome

-- What other connections see, and what is left after a crash.
unfoldable pub committed : Connection → Tables
committed c = elim c.saved [ none ↦ c.tables | some t ↦ t ]

abbrev pub Op : Type 0
Op = Connection → Bool × Connection

unfoldable pub head_outcome : List Outcome → Outcome
head_outcome [] = done
head_outcome (o ∷ os) = o

unfoldable pub tail_outcomes : List Outcome → List Outcome
tail_outcomes [] = []
tail_outcomes (o ∷ os) = os

unfoldable pub restore : Connection → Connection
restore c = elim c.saved [ none ↦ c | some t ↦ record c { tables = t; saved = none } ]

unfoldable pub respond : Outcome → Op → Op
unfolding restore
respond done effect c = effect c
respond failed effect c = (false, c)
respond rolled_back effect c = (false, restore c)

-- A call of the engine: on a null handle it is misuse, and fails.
unfoldable pub call : Op → Op
unfolding respond head_outcome tail_outcomes
call effect c =
    if c.is_open
    then respond (head_outcome c.outcomes) effect (record c { outcomes = tail_outcomes c.outcomes })
    else (false, c)

-- sqlite3_prepare_v2
unfoldable pub prepare : Op
unfolding call
prepare = call λ c. (true, c)

-- A statement that changes the tables; `none` is a violated constraint.
abbrev pub Change : Type 0
Change = Tables → Option Tables

unfoldable pub apply_change : Change → Op
apply_change f c = elim (f c.tables) [
  | none ↦ (false, c)
  | some t ↦ (true, record c { tables = t })
]

-- sqlite3_step, or sqlite3_exec of one statement
unfoldable pub statement : Change → Op
unfolding call apply_change
statement f = call (apply_change f)

unfoldable pub open_transaction : Op
open_transaction c = elim c.saved [
  | none ↦ (true, record c { saved = some c.tables })
  | some t ↦ (false, c)
]

unfoldable pub close_transaction : Op
close_transaction c = elim c.saved [
  | none ↦ (false, c)
  | some t ↦ (true, record c { saved = none })
]

unfoldable pub undo_transaction : Op
undo_transaction c = elim c.saved [
  | none ↦ (false, c)
  | some t ↦ (true, record c { tables = t; saved = none })
]

-- "BEGIN IMMEDIATE;", "COMMIT;" and "ROLLBACK;"
unfoldable pub begin : Op
unfolding call open_transaction
begin = call open_transaction

unfoldable pub commit : Op
unfolding call close_transaction
commit = call close_transaction

unfoldable pub rollback : Op
unfolding call undo_transaction
rollback = call undo_transaction

-- Goes on only if the first operation works.
infixr 6 ◌⊳◌
unfoldable pub ◌⊳◌ : Op → Op → Op
◌⊳◌ m k c = let (ok, c') = m c in if ok then k c' else (false, c')

-- A body that fails is followed by ROLLBACK, whose result nobody reads.
unfoldable pub or_rollback : Op → Op
or_rollback m c = let (ok, c') = m c in if ok then (true, c') else (false, (rollback c').1)

unfoldable pub transaction : Op → Op
transaction body = begin ⊳ or_rollback body ⊳ commit

-- A method that returns false on a closed database.
unfoldable pub when_open : Op → Op
when_open op c = if c.is_open then op c else (false, c)
