-- ===== src/Sync/Service/Mark.antt =====
-- The high-water mark in a pass: only a pass that completes moves it.
use steam_sales_tray.Shared.{
  ℕ, ◌≡◌, refl, ◌∙◌, ◌⊎◌, inl, inr, Bool, true, false, List, [], ◌∷◌, if◌then◌else◌, is_empty,
}
use steam_sales_tray.Shared.Bytes.{Bytes, Wide}
use steam_sales_tray.Steam.Models.{ChangedDates, DetailedSalesRecord}
use steam_sales_tray.Steam.Client.{FinancialResult, is_ok}
use steam_sales_tray.Storage.Connection.{Connection}
use steam_sales_tray.Storage.Database.{get_backfill_cursor}
use steam_sales_tray.Storage.Database.Mark.{
  mark_of, KeepsMark, set_last_successful_check_utc-KeepsMark, set_last_error-KeepsMark,
  set_backfill_cursor-KeepsMark, read-KeepsMark, step_row-KeepsMark, replace_date-KeepsMark,
  get_changed_dates_highwatermark-KeepsMark, query_lifetime-KeepsMark,
}
use steam_sales_tray.Sync.Service.Monad.{
  idle, Message, SyncStatus, AppStatus, LogLevel, Ends, ◌>>=◌, ◌>>◌, SteamApi, Env, World, M,
  set_status, on_status, post, log, on_db, pure,
}
use steam_sales_tray.Sync.Service.Dates.{
  fail_request, request_sales, checkpoint, after_store, store_date, process_date, process_dates,
}
use steam_sales_tray.Sync.Service.{
  request_changed_dates, snapshot, log_resumed, process_changed, process_answer, synchronize,
}
use steam_sales_tray.Sync.Service.Settled.{
  HasCompleted, finish_unchanged-HasCompleted, finish_changed-HasCompleted,
}

module _ (api : SteamApi) (env : Env) where
  abbrev pub mark : World api env → Bytes
  mark w = mark_of w.db

  record Keeps {A : Type 0} (m : M api env A) : Type 0 where
    at : (w : World api env) → mark (m w).1 ≡ mark w

  Keeps-bind :
      {A B : Type 0} (m : M api env A) (f : A → M api env B)
      → Keeps m
      → ((a : A) → Keeps (f a))
      → Keeps (m >>= f)
  unfolding ◌>>=◌
  Keeps-bind m f p q = record { at = λ w. (q (m w).0).at (m w).1 ∙ p.at w }

  Keeps-then :
      {A B : Type 0} (m : M api env A) (k : M api env B) → Keeps m → Keeps k → Keeps (m >> k)
  unfolding ◌>>◌
  Keeps-then m k p q = record { at = λ w. q.at (m w).1 ∙ p.at w }

  Keeps-if :
      {A : Type 0} (b : Bool) (m n : M api env A) → Keeps m → Keeps n → Keeps (if b then m else n)
  Keeps-if true m n p q = p
  Keeps-if false m n p q = q

  pure-Keeps : {A : Type 0} (a : A) → Keeps (pure api env a)
  unfolding pure
  pure-Keeps a = record { at = λ w. refl }

  on_status-Keeps : (f : AppStatus → AppStatus) → Keeps (on_status api env f)
  unfolding on_status
  on_status-Keeps f = record { at = λ w. refl }

  set_status-Keeps : (s : SyncStatus) (message : Wide) → Keeps (set_status api env s message)
  unfolding set_status on_status
  set_status-Keeps s message = record { at = λ w. refl }

  post-Keeps : (message : Message) → Keeps (post api env message)
  unfolding post
  post-Keeps message = record { at = λ w. refl }

  log-Keeps : (level : LogLevel) (text : Wide) → Keeps (log api env level text)
  unfolding log
  log-Keeps level text = record { at = λ w. refl }

  on_db-Keeps :
      {A : Type 0} (f : Connection → A × Connection) → KeepsMark f → Keeps (on_db api env f)
  unfolding on_db
  on_db-Keeps f k = record { at = λ w. k.at w.db }

  request_sales-Keeps : (key date : Bytes) → Keeps (request_sales api env key date)
  unfolding request_sales
  request_sales-Keeps key date = record { at = λ w. refl }

  request_changed_dates-Keeps : (key hwm : Bytes) → Keeps (request_changed_dates api env key hwm)
  unfolding request_changed_dates
  request_changed_dates-Keeps key hwm = record { at = λ w. refl }

  ruleset keeps_rules = (
    Keeps-bind, Keeps-then, Keeps-if, pure-Keeps, on_status-Keeps, set_status-Keeps, post-Keeps,
    log-Keeps, on_db-Keeps, request_sales-Keeps, request_changed_dates-Keeps,
    set_last_successful_check_utc-KeepsMark, set_last_error-KeepsMark,
    set_backfill_cursor-KeepsMark, read-KeepsMark, step_row-KeepsMark, replace_date-KeepsMark,
  )

  fail_request-Keeps : (name : Wide) (r : FinancialResult) → Keeps (fail_request api env name r)
  unfolding fail_request
  fail_request-Keeps name r = search keeps_rules depth 20

  checkpoint-Keeps : (initial : Bool) (date : Bytes) → Keeps (checkpoint api env initial date)
  unfolding checkpoint
  checkpoint-Keeps initial date = search keeps_rules depth 20

  after_store-Keeps :
      (date : Bytes) (initial stored : Bool) → Keeps (after_store api env date initial stored)
  unfolding after_store
  after_store-Keeps date initial true = search (keeps_rules, checkpoint-Keeps) depth 20
  after_store-Keeps date initial false = search keeps_rules depth 20

  store_date-Keeps :
      (date now : Bytes) (initial : Bool) (records : List DetailedSalesRecord)
      → Keeps (store_date api env date now initial records)
  unfolding store_date
  store_date-Keeps date now initial records = search (keeps_rules, after_store-Keeps) depth 20

  process_date-Keeps :
      (key now : Bytes) (initial : Bool) (date : Bytes)
      → Keeps (process_date api env key now initial date)
  unfolding process_date
  process_date-Keeps key now initial date =
      Keeps-bind {A = FinancialResult × List DetailedSalesRecord} _ _ (request_sales-Keeps key date)
        λ answer.
          Keeps-if (is_ok answer.0) _ _ (store_date-Keeps date now initial answer.1)
            (Keeps-then _ _ (fail_request-Keeps _ answer.0) (pure-Keeps false))

  process_dates-Keeps :
      (key now : Bytes) (initial : Bool) (dates : List Bytes)
      → Keeps (process_dates api env key now initial dates)
  unfolding process_dates
  process_dates-Keeps key now initial [] = pure-Keeps true
  process_dates-Keeps key now initial (date ∷ dates) =
      let rest = process_dates-Keeps key now initial dates in
      Keeps-bind _ _ (process_date-Keeps key now initial date)
        λ done. Keeps-if done _ _ rest (pure-Keeps false)

  abbrev IsKeptOrIdle : World api env → World api env → Type 0
  IsKeptOrIdle w w' = (mark w' ≡ mark w) ⊎ (w'.status.status ≡ idle)

  record Guards (m : M api env (Unit {0})) : Type 0 where
    at : (w : World api env) → IsKeptOrIdle w (m w).1

  Guards-bind :
      {A : Type 0} (m : M api env A) (f : A → M api env (Unit {0}))
      → Keeps m
      → ((a : A) → Guards (f a))
      → Guards (m >>= f)
  unfolding ◌>>=◌
  Guards-bind m f p q = record {
    at =
        λ w. elim ((q (m w).0).at (m w).1) [ inl same ↦ inl (same ∙ p.at w) | inr done ↦ inr done ];
  }

  Guards-then :
      {A : Type 0} (m : M api env A) (k : M api env (Unit {0}))
      → Keeps m
      → Guards k
      → Guards (m >> k)
  unfolding ◌>>◌
  Guards-then m k p q = record {
    at = λ w. elim (q.at (m w).1) [ inl same ↦ inl (same ∙ p.at w) | inr done ↦ inr done ];
  }

  Guards-if :
      (b : Bool) (m n : M api env (Unit {0})) → Guards m → Guards n → Guards (if b then m else n)
  Guards-if true m n p q = p
  Guards-if false m n p q = q

  completed-Guards : (m : M api env (Unit {0})) → Ends (λ _ w. HasCompleted api env w) m → Guards m
  completed-Guards m e = record { at = λ w. inr (e.at w).0 }

  Keeps-Guards : (m : M api env (Unit {0})) → Keeps m → Guards m
  Keeps-Guards m k = record { at = λ w. inl (k.at w) }

  get_backfill_cursor-Keeps : Keeps (on_db api env get_backfill_cursor)
  unfolding get_backfill_cursor
  get_backfill_cursor-Keeps = search keeps_rules depth 5

  snapshot-Keeps : (wanted : Bool) → Keeps (snapshot api env wanted)
  unfolding snapshot
  snapshot-Keeps wanted = search (keeps_rules, query_lifetime-KeepsMark) depth 12

  log_resumed-Keeps : (initial : Bool) (all left : ℕ) → Keeps (log_resumed api env initial all left)
  unfolding log_resumed
  log_resumed-Keeps initial all left = search keeps_rules depth 6

  process_changed-Guards :
      (key now : Bytes) (initial : Bool) (changed : ChangedDates)
      → Guards (process_changed api env key now initial changed)
  unfolding process_changed
  process_changed-Guards key now initial changed =
      Guards-bind _ _ (Keeps-if initial _ _ get_backfill_cursor-Keeps (pure-Keeps [])) λ cursor.
        Guards-then _ _ (log_resumed-Keeps initial _ _) (
          Guards-then _ _ (on_status-Keeps _) (
            Guards-then _ _ (post-Keeps _) (
              Guards-bind _ _ (snapshot-Keeps _) λ before.
                Guards-bind _ _ (process_dates-Keeps key now initial _) λ done.
                  Guards-if done _ _
                    (completed-Guards _
                      (finish_changed-HasCompleted api env changed now initial before))
                    (Keeps-Guards _ (pure-Keeps tt)))))

  synchronize-Guards : (key : Bytes) → Guards (synchronize api env key)
  unfolding synchronize process_answer
  synchronize-Guards key =
      Guards-bind _ _ (on_db-Keeps _ get_changed_dates_highwatermark-KeepsMark) λ hwm.
        Guards-bind {A = FinancialResult × ChangedDates} _ _ (request_changed_dates-Keeps key hwm)
          λ answer.
            Guards-if (is_ok answer.0) _ _
              (Guards-then _ _ (log-Keeps _ _) (
                Guards-then _ _ (on_db-Keeps _ (set_last_successful_check_utc-KeepsMark _)) (
                  Guards-if (is_empty answer.1.dates) _ _
                    (completed-Guards _ (finish_unchanged-HasCompleted api env answer.1))
                    (process_changed-Guards key env.utc_now _ answer.1))))
              (Keeps-Guards _ (fail_request-Keeps _ answer.0))

  -- From the reading of the high-water mark in a pass to its end, the mark that is committed
  -- stays as it was unless the pass ends with the status Idle, whatever the database and the
  -- client do.
  pub synchronize-mark :
      (key : Bytes) (w : World api env)
      → (mark (synchronize api env key w).1 ≡ mark w)
        ⊎ ((synchronize api env key w).1.status.status ≡ idle)
  synchronize-mark key w = (synchronize-Guards key).at w
