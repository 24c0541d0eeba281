-- ===== src/Sync/Worker/Threads/Evolution.antt =====
-- The life of the worker refines the cache of Sync/Cache, in every order of its steps and those of
-- the other threads.
use steam_sales_tray.Shared.{ℕ, ◌≡◌, refl, sym, subst, []}
use steam_sales_tray.Shared.Bytes.{Bytes}
use steam_sales_tray.Storage.Database.Sales.{get_last_successful_sync_utc-KeepsSales}
use steam_sales_tray.Sync.Cache.{Cache, Evolves, start, Evolves-trans}
use steam_sales_tray.Sync.Service.Monad.{SteamApi, Env, idle}
use steam_sales_tray.Sync.Service.Evolution.{
  cache, evolution, Evolving, open_database-Evolving, run_synchronization-Evolving,
}
use steam_sales_tray.Sync.Service.Takes.{
  Takes-bind, Takes-then, Takes-if, on_db-Takes, set_status-Takes,
}
use steam_sales_tray.Sync.Worker.{
  Events, set_clear_requested, Wake, stopped, startup, after_pass, run_round,
}
use steam_sales_tray.Sync.Worker.Threads.{
  Waits, System, after_wake, after_start, after_run, ask_clear, Step, asks_refresh,
  changes_settings, asks_clear, asks_stop, starts, wakes, runs, Steps, here, more,
}

module _ (api : SteamApi) where
  startup-Evolving : (age : Bytes → ℕ) (env : Env) → Evolving api (startup api age env)
  unfolding startup
  startup-Evolving age env = Takes-then api (evolution api) _ _ (open_database-Evolving api env) (
      Takes-bind api (evolution api) _ _
        (on_db-Takes api (evolution api) env _ get_last_successful_sync_utc-KeepsSales)
        λ last.
          Takes-if api (evolution api) _ _ _ (run_synchronization-Evolving api env)
            (set_status-Takes api (evolution api) env idle []))

  module _ (waits : Waits) where
    abbrev pub cache_in : System api waits → Cache
    cache_in s = cache api s.worker.state

    after_wake-cache :
        (s : System api waits) (k : Wake) (e : Events)
        → cache_in (after_wake api waits k e s) ≡ cache_in s
    unfolding after_wake
    after_wake-cache s stopped e = refl
    after_wake-cache s _ e = refl

    Step-Evolves :
        (s t : System api waits) → Step api waits s t → Evolves api (cache_in s) (cache_in t)
    unfolding ask_clear set_clear_requested after_start after_run run_round after_pass
    Step-Evolves s t (asks_refresh e) =
        subst (λ (u : System api waits). Evolves api (cache_in s) (cache_in u)) (sym e) start
    Step-Evolves s t (changes_settings e) =
        subst (λ (u : System api waits). Evolves api (cache_in s) (cache_in u)) (sym e) start
    Step-Evolves s t (asks_clear e) =
        subst (λ (u : System api waits). Evolves api (cache_in s) (cache_in u)) (sym e) start
    Step-Evolves s t (asks_stop e) =
        subst (λ (u : System api waits). Evolves api (cache_in s) (cache_in u)) (sym e) start
    Step-Evolves s t (starts age first starting e) =
        subst (λ (u : System api waits). Evolves api (cache_in s) (cache_in u)) (sym e)
          ((startup-Evolving age first.env).at s.worker.state)
    Step-Evolves s t (wakes k e waiting ret eq) =
        subst (λ (u : System api waits). Evolves api (cache_in s) (cache_in u)) (sym eq)
          (subst (Evolves api (cache_in s)) (sym (after_wake-cache s k e)) start)
    Step-Evolves s t (runs r woken e) =
        subst (λ (u : System api waits). Evolves api (cache_in s) (cache_in u)) (sym e)
          ((run_synchronization-Evolving api r.env).at s.worker.state)

    -- From the start of the worker on, or from any other state of it, whatever fails and however the
    -- threads interleave, the cache that is committed goes through these steps alone: it is emptied,
    -- or one date is replaced by the whole aggregation of a successful answer of Steam about the
    -- date.
    pub worker-Evolves :
        (s t : System api waits) → Steps api waits s t → Evolves api (cache_in s) (cache_in t)
    worker-Evolves s t here = start
    worker-Evolves s t (more {t = u} steps step) =
        Evolves-trans api (worker-Evolves s u steps) (Step-Evolves u t step)
