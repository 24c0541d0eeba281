-- ===== src/Sync/Service/Evolution.antt =====
-- A pass of the worker refines the cache: each of its calls takes one of the steps of Sync/Cache.
use steam_sales_tray.Shared.{
  ◌≡◌, refl, ap, ◌⊎◌, inl, inr, Bool, true, false, Option, none, some, List, [], ◌∷◌, if◌then◌else◌,
  is_empty, select,
}
use steam_sales_tray.Shared.Bytes.{Bytes, bytes_eq}
use steam_sales_tray.Steam.Models.{ChangedDates}
use steam_sales_tray.Steam.Client.{FinancialResult, is_ok}
use steam_sales_tray.Storage.Connection.{Connection}
use steam_sales_tray.Storage.Database.{clear_all_sales}
use steam_sales_tray.Storage.Database.Clear.{clear_all_sales-atomic}
use steam_sales_tray.Storage.Database.Sales.{
  get_backfill_cursor-KeepsSales, set_last_successful_check_utc-KeepsSales,
  get_changed_dates_highwatermark-KeepsSales,
}
use steam_sales_tray.Storage.Migrations.{open_database}
use steam_sales_tray.Storage.Migrations.Sales.{committed_sales, IsKeptOrEmpty, open_database-sales}
use steam_sales_tray.Sync.Cache.{
  Cache, cache_of, CacheStep, unchanged, emptied, replaced, Evolves, start, next, Evolves-trans,
}
use steam_sales_tray.Sync.Service.Monad.{SteamApi, Env, State, World, on_db}
use steam_sales_tray.Sync.Service.Takes.{
  Relation, Takes, Takes-bind, Takes-then, Takes-if, pure-Takes, on_status-Takes, set_status-Takes,
  post-Takes, log-Takes, on_db-Takes, request_changed_dates-Takes, snapshot-Takes,
  finish_unchanged-Takes, finish_changed-Takes, fail_request-Takes, fail_pass-Takes,
  log_resumed-Takes, takes_rules,
}
use steam_sales_tray.Sync.Service.Sales.Round.{IsRound, IsUntouched, process_date-IsRound}
use steam_sales_tray.Sync.Service.Dates.{process_date, process_dates}
use steam_sales_tray.Sync.Service.{
  ensure_open, clear_if_requested, process_changed, process_answer, synchronize, with_key,
  run_synchronization,
}

module _ (api : SteamApi) where
  abbrev pub cache : State api.Net → Cache
  cache w = cache_of w.db

  pub sales-IsStep :
      (c d : Connection)
      → committed_sales d ≡ committed_sales c
      → CacheStep api (cache_of c) (cache_of d)
  sales-IsStep c d h = unchanged λ e. ap (select (λ s. bytes_eq s.financial_date e)) h

  sales-Evolves :
      (c d : Connection)
      → IsKeptOrEmpty (committed_sales c) (committed_sales d)
      → Evolves api (cache_of c) (cache_of d)
  sales-Evolves c d (inl h) = next start (sales-IsStep c d h)
  sales-Evolves c d (inr h) =
      next start (emptied λ e. ap (select (λ s. bytes_eq s.financial_date e)) h)

  abbrev pub evolution : Relation
  evolution = record {
    Related = λ c d. Evolves api (cache_of c) (cache_of d);
    same = λ c d h. next start (sales-IsStep c d h);
    trans = Evolves-trans api;
  }

  abbrev pub Evolving : {A : Type 0} → (State api.Net → A × State api.Net) → Type 0
  Evolving m = Takes api evolution m

  module _ (env : Env) where
    pub open_database-Evolving : Evolving (on_db api env open_database)
    unfolding on_db
    open_database-Evolving = record {
      at = λ w. sales-Evolves w.db (open_database w.db).1 (open_database-sales w.db);
    }

    clear_all_sales-Evolving : Evolving (on_db api env clear_all_sales)
    unfolding on_db
    clear_all_sales-Evolving = record {
      at = λ w. elim (clear_all_sales-atomic w.db) [
        | inl (done, cleared) ↦ sales-Evolves w.db _ (inr cleared.sales)
        | inr (failed, same) ↦ sales-Evolves w.db _ (inl (ap (λ t. t.daily_product_sales) same))
      ];
    }

    cases-Evolving :
        (opened : Bool) (c : Connection)
        → IsKeptOrEmpty
            (committed_sales c)
            (committed_sales (if opened then (true, c) else open_database c).1)
    cases-Evolving true c = inl refl
    cases-Evolving false c = open_database-sales c

    ensure_open-Evolving : Evolving (on_db api env ensure_open)
    unfolding on_db ensure_open
    ensure_open-Evolving = record {
      at = λ w. sales-Evolves w.db _ (cases-Evolving w.db.is_open w.db);
    }

    round-Evolves :
        (key date : Bytes) (w : World api env) (r : Bool × World api env)
        → let reply = api.get_all_sales_for_date key date w.net in
          ((is_ok reply.0 ≡ true) × IsRound api env date reply.1 w r) ⊎ IsUntouched api env w r
          → Evolves api (cache w) (cache r.1)
    round-Evolves key date w r (inl (ok, inl (stored, dated, others))) =
        next start (replaced key date w.net ok dated others)
    round-Evolves key date w r (inl (ok, inr (refused, same))) = next start (unchanged same)
    round-Evolves key date w r (inr (refused, same)) = next start (unchanged same)

    process_date-Evolving :
        (key now : Bytes) (initial : Bool) (date : Bytes)
        → Evolving (process_date api env key now initial date)
    process_date-Evolving key now initial date = record {
      at = λ w.
          round-Evolves key date w (process_date api env key now initial date w)
            (process_date-IsRound api env key now initial date w);
    }

    process_dates-Evolving :
        (key now : Bytes) (initial : Bool) (dates : List Bytes)
        → Evolving (process_dates api env key now initial dates)
    unfolding process_dates
    process_dates-Evolving key now initial [] = pure-Takes api evolution env true
    process_dates-Evolving key now initial (date ∷ dates) =
        let rest = process_dates-Evolving key now initial dates in
        Takes-bind api evolution _ _ (process_date-Evolving key now initial date)
          λ done. Takes-if api evolution done _ _ rest (pure-Takes api evolution env false)

    clear_if_requested-Evolving : Evolving (clear_if_requested api env)
    unfolding clear_if_requested
    clear_if_requested-Evolving = search (takes_rules, clear_all_sales-Evolving) depth 20

    process_changed-Evolving :
        (key now : Bytes) (initial : Bool) (changed : ChangedDates)
        → Evolving (process_changed api env key now initial changed)
    unfolding process_changed
    process_changed-Evolving key now initial changed =
        Takes-bind api evolution _ _
          (Takes-if api evolution initial _ _
            (on_db-Takes api evolution env _ get_backfill_cursor-KeepsSales)
            (pure-Takes api evolution env []))
          λ cursor. Takes-then api evolution _ _ (log_resumed-Takes api evolution env initial _ _) (
            Takes-then api evolution _ _ (on_status-Takes api evolution env _) (
              Takes-then api evolution _ _ (post-Takes api evolution env _) (
                Takes-bind api evolution _ _ (snapshot-Takes api evolution env _) λ before.
                  Takes-bind api evolution _ _ (process_dates-Evolving key now initial _) λ done.
                    Takes-if api evolution done _ _
                      (finish_changed-Takes api evolution env changed now initial before)
                      (pure-Takes api evolution env tt))))

    process_answer-Evolving :
        (key : Bytes) (initial : Bool) (changed : ChangedDates)
        → Evolving (process_answer api env key initial changed)
    unfolding process_answer
    process_answer-Evolving key initial changed =
        Takes-then api evolution _ _ (log-Takes api evolution env _ _) (
          Takes-then api evolution _ _
            (on_db-Takes api evolution env _ (set_last_successful_check_utc-KeepsSales _))
            (Takes-if api evolution (is_empty changed.dates) _ _
              (finish_unchanged-Takes api evolution env changed)
              (process_changed-Evolving key env.utc_now initial changed)))

    synchronize-Evolving : (key : Bytes) → Evolving (synchronize api env key)
    unfolding synchronize
    synchronize-Evolving key =
        Takes-bind api evolution _ _
          (on_db-Takes api evolution env _ get_changed_dates_highwatermark-KeepsSales)
          λ hwm.
            Takes-bind api evolution {A = FinancialResult × ChangedDates} _ _
              (request_changed_dates-Takes api evolution env key hwm)
              λ answer.
                Takes-if api evolution (is_ok answer.0) _ _ (process_answer-Evolving key _ answer.1)
                  (fail_request-Takes api evolution env _ answer.0)

    with_key-Evolving : (key : Option Bytes) → Evolving (with_key api env key)
    unfolding with_key
    with_key-Evolving none = fail_pass-Takes api evolution env _ _
    with_key-Evolving (some key) = synchronize-Evolving key

    -- Whatever fails, a pass takes the cache along steps that empty it or replace one date by the
    -- whole aggregation of a successful answer of Steam about it.
    pub run_synchronization-Evolving : Evolving (run_synchronization api env)
    unfolding run_synchronization
    run_synchronization-Evolving = Takes-then api evolution _ _ (post-Takes api evolution env _) (
        Takes-then api evolution _ _ (set_status-Takes api evolution env _ _) (
          Takes-bind api evolution _ _ ensure_open-Evolving λ opened.
            Takes-if api evolution opened _ _
              (Takes-then api evolution _ _ clear_if_requested-Evolving (with_key-Evolving _))
              (fail_pass-Takes api evolution env _ _)))
