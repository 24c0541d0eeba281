-- ===== src/Storage/Migrations/Sales.antt =====
-- What the opening of the database does to the sales that are committed, whichever calls of the
-- engine fail.
use steam_sales_tray.Shared.{
  ◌≡◌, refl, ap, ◌∙◌, ◌⊎◌, inl, inr, Bool, Bool-cases, true, false, some, List, [], ltb, arith,
}
use steam_sales_tray.Storage.Connection.{
  DailyProductSale, Tables, Connection, committed, Op, Change, call, restore, ◌⊳◌, statement,
  transaction,
}
use steam_sales_tray.Storage.Connection.Atomic.{Atomic, transaction-Atomic, statement-Performs}
use steam_sales_tray.Storage.Migrations.{
  schema_v1, schema_v2, apply_if, apply_migrations, get_schema_version, prepare_version, close,
  connect, set_pragmas, or_close, open_database,
}

abbrev pub sales_view : Tables → List DailyProductSale
sales_view t = t.daily_product_sales

abbrev pub committed_sales : Connection → List DailyProductSale
committed_sales c = sales_view (committed c)

-- The sales are as they were, or there are none.
abbrev pub IsKeptOrEmpty : List DailyProductSale → List DailyProductSale → Type 0
IsKeptOrEmpty sales sales' = (sales' ≡ sales) ⊎ (sales' ≡ [])

IsKeptOrEmpty-trans :
    {a b c : List DailyProductSale} → IsKeptOrEmpty a b → IsKeptOrEmpty b c → IsKeptOrEmpty a c
IsKeptOrEmpty-trans (inl p) (inl q) = inl (q ∙ p)
IsKeptOrEmpty-trans (inr p) (inl q) = inr (q ∙ p)
IsKeptOrEmpty-trans p (inr q) = inr q

record LeavesSales (op : Op) : Type 0 where
  at : (c : Connection) → IsKeptOrEmpty (committed_sales c) (committed_sales (op c).1)

step-LeavesSales :
    (f : Change)
    → ((t t' : Tables) → f t ≡ some t' → IsKeptOrEmpty (sales_view t) (sales_view t'))
    → LeavesSales (transaction (statement f))
step-LeavesSales f h =
    let step : Atomic f (transaction (statement f)) = transaction-Atomic (statement-Performs f) in
    record {
      at = λ c. elim (Bool-cases (transaction (statement f) c).0) [
        | inl worked ↦ h _ _ (step.works c worked).2
        | inr failed ↦ inl (ap sales_view (step.fails c failed))
      ];
    }

apply_if-LeavesSales :
    (pending : Bool) (f : Change)
    → LeavesSales (transaction (statement f))
    → LeavesSales (apply_if pending f)
unfolding apply_if
apply_if-LeavesSales true f p = record { at = p.at }
apply_if-LeavesSales false f p = record { at = λ c. inl refl }

⊳-LeavesSales : {m k : Op} → LeavesSales m → LeavesSales k → LeavesSales (m ⊳ k)
unfolding ◌⊳◌
⊳-LeavesSales {m} {k} p q = record {
  at = λ c. elim (Bool-cases (m c).0) [
    | inl h ↦ rw h (IsKeptOrEmpty-trans (p.at c) (q.at (m c).1))
    | inr h ↦ rw h (p.at c)
  ];
}

schema_v1-sales :
    (t t' : Tables) → schema_v1 t ≡ some t' → IsKeptOrEmpty (sales_view t) (sales_view t')
unfolding schema_v1
schema_v1-sales t t' h = inr (ground arith)

schema_v2-sales :
    (t t' : Tables) → schema_v2 t ≡ some t' → IsKeptOrEmpty (sales_view t) (sales_view t')
unfolding schema_v2
schema_v2-sales t t' h = inl (ground arith)

get_schema_version-sales :
    (c : Connection) → committed_sales (get_schema_version c).1 ≡ committed_sales c
unfolding get_schema_version prepare_version ◌⊳◌ call restore committed
get_schema_version-sales c = ground arith

two_steps-LeavesSales : (a b : Bool) → LeavesSales (apply_if a schema_v1 ⊳ apply_if b schema_v2)
two_steps-LeavesSales a b =
    ⊳-LeavesSales (apply_if-LeavesSales a schema_v1 (step-LeavesSales schema_v1 schema_v1-sales))
      (apply_if-LeavesSales b schema_v2 (step-LeavesSales schema_v2 schema_v2-sales))

apply_migrations-LeavesSales : LeavesSales apply_migrations
unfolding apply_migrations
apply_migrations-LeavesSales = record {
  at = λ c.
      let (v, c') = get_schema_version c in
      IsKeptOrEmpty-trans (inl (get_schema_version-sales c))
        ((two_steps-LeavesSales (ltb v 1) (ltb v 2)).at c');
}

close-sales : (c : Connection) → committed_sales (close c) ≡ committed_sales c
unfolding close restore committed
close-sales c = ground arith

connect-LeavesSales : LeavesSales connect
unfolding connect call restore committed
connect-LeavesSales = record { at = λ c. inl (ground arith) }

pragma-sales : (c : Connection) → committed_sales (call (λ e. (true, e)) c).1 ≡ committed_sales c
unfolding call restore committed
pragma-sales c = ground arith

set_pragmas-sales : (c : Connection) → committed_sales (set_pragmas c) ≡ committed_sales c
unfolding set_pragmas
set_pragmas-sales c =
    let next = λ (d : Connection). (call (λ e. (true, e)) d).1 in
    pragma-sales (next (next (next c)))
    ∙ pragma-sales (next (next c))
    ∙ pragma-sales (next c)
    ∙ pragma-sales c

or_close-LeavesSales : {m : Op} → LeavesSales m → LeavesSales (or_close m)
unfolding or_close
or_close-LeavesSales {m} p = record {
  at = λ c. elim (Bool-cases (m c).0) [
    | inl h ↦ rw h (p.at c)
    | inr h ↦ rw h (IsKeptOrEmpty-trans (p.at c) (inl (close-sales (m c).1)))
  ];
}

-- The opening keeps the sales, or creates a database without any.
pub open_database-sales :
    (c : Connection) → IsKeptOrEmpty (committed_sales c) (committed_sales (open_database c).1)
unfolding open_database
open_database-sales c =
    let migrate : LeavesSales (λ d. apply_migrations (set_pragmas d)) = record {
      at = λ d.
          IsKeptOrEmpty-trans (inl (set_pragmas-sales d))
            (apply_migrations-LeavesSales.at (set_pragmas d));
    } in
    IsKeptOrEmpty-trans (inl (close-sales c))
      ((or_close-LeavesSales (⊳-LeavesSales connect-LeavesSales migrate)).at (close c))
