-- ===== src/Sync/Worker.antt =====
-- sync/SalesSyncService.cpp: `Run`, the loop of the worker thread, `ComputeWaitMs` and the requests
-- of other threads. What the waits give, and what the clocks and settings are in each round, is a
-- list of rounds.
pub mod Waits
pub mod Threads
use steam_sales_tray.Shared.{
  ℕ, ◌+◌, ◌-◌, ◌*◌, ◌%◌, ◌^◌, Bool, true, false, ◌&&◌, ◌||◌, Option, none, some, List, [], ◌∷◌, ltb,
  leb, ◌==◌, if◌then◌else◌,
}
use steam_sales_tray.Shared.Bytes.{Bytes}
use steam_sales_tray.Storage.Database.{get_last_successful_sync_utc}
use steam_sales_tray.Storage.Migrations.{open_database}
use steam_sales_tray.Sync.Service.Monad.{
  SteamApi, Env, AppStatus, State, M, idle, set_status, on_db, pure, ◌>>=◌, ◌>>◌,
}
use steam_sales_tray.Sync.Service.{run_synchronization}

abbrev pub infinite : ℕ
infinite = 2 ^ 32 - 1

abbrev pub max_dword : ℕ
max_dword = 2 ^ 32 - 1

abbrev pub startup_freshness_seconds : ℕ
startup_freshness_seconds = 300

-- `interval` in minutes, `now` of GetTickCount64
unfoldable pub compute_wait_ms : ℕ → ℕ → ℕ → ℕ
compute_wait_ms interval now deadline =
    if interval == 0
    then infinite
    else if leb deadline now
    then 0
    else if ltb max_dword (deadline - now)
    then max_dword
    else deadline - now

unfoldable pub reset_deadline : ℕ → ℕ → ℕ
reset_deadline interval now = if interval == 0 then 0 else (now + interval * 60000) % 2 ^ 64

-- The events that other threads set, each none until Start creates it and then whether it is
-- signalled, and whether the thread is joinable.
pub record Events : Type 0 where
  pub stop : Option Bool
  pub manual : Option Bool
  pub settings : Option Bool
  pub joinable : Bool

-- SetEvent, under the test of the handle
unfoldable set_event : Option Bool → Option Bool
set_event none = none
set_event (some signalled) = some true

unfoldable pub request_manual_refresh : Events → Events
unfolding set_event
request_manual_refresh e = record e { manual = set_event e.manual }

unfoldable pub notify_settings_changed : Events → Events
unfolding set_event
notify_settings_changed e = record e { settings = set_event e.settings }

unfoldable pub stop_worker : Events → Events
unfolding set_event
stop_worker e = if e.joinable then record e { stop = set_event e.stop; joinable = false } else e

-- the destructor: Stop, and the handles are closed
unfoldable pub destroy_worker : Events → Events
unfolding stop_worker
destroy_worker e = record (stop_worker e) { stop = none; manual = none; settings = none }

-- Which of its events CreateEventW can create.
pub record Creates : Type 0 where
  pub creates_stop : Bool
  pub creates_manual : Bool
  pub creates_settings : Bool

abbrev create_event : Bool → Option Bool
create_event true = some false
create_event false = none

-- The events are as they were created, and the thread starts where there are all of them.
unfoldable pub start_worker : Creates → Events → Bool × Events
start_worker c e =
    let all = c.creates_stop && c.creates_manual && c.creates_settings in
    (
      all,
      record {
        stop = create_event c.creates_stop;
        manual = create_event c.creates_manual;
        settings = create_event c.creates_settings;
        joinable = all || e.joinable;
      },
    )

-- What WaitForMultipleObjects gives; `wait_failed` is WAIT_FAILED, on which a pass runs too.
pub data Wake : Type 0 where
  stopped manual_refresh settings_changed timed_out wait_failed : Wake

-- One round of the loop: what woke it, what the pass sees, and the interval and the tick that the
-- deadline is set from after it.
pub record Round : Type 0 where
  pub wake : Wake
  pub env : Env
  pub interval : ℕ
  pub tick : ℕ

module _ (api : SteamApi) where
  pub record Worker : Type 0 where
    pub state : State api.Net
    pub deadline : ℕ

  -- the copy that GetStatus takes
  unfoldable pub get_status : State api.Net → AppStatus
  get_status w = w.status

  unfoldable pub set_clear_requested : State api.Net → State api.Net
  set_clear_requested w = record w { clear_cache_requested = true }

  unfoldable pub request_clear_cache : State api.Net × Events → State api.Net × Events
  unfolding set_clear_requested request_manual_refresh
  request_clear_cache (w, e) = (set_clear_requested w, request_manual_refresh e)

  -- the synchronisation at the start, unless the last success is recent; `age` is SecondsSinceUtc
  unfoldable pub startup : (Bytes → ℕ) → (env : Env) → M api env (Unit {0})
  startup age env = do
    on_db api env open_database
    last ← on_db api env get_last_successful_sync_utc
    if ltb startup_freshness_seconds (age last)
        then run_synchronization api env
        else set_status api env idle []

  unfoldable pub after_pass : Round → State api.Net → Worker
  unfolding reset_deadline
  after_pass r w = record { state = w; deadline = reset_deadline r.interval r.tick }

  unfoldable pub run_round : Round → Worker → Worker
  unfolding after_pass
  run_round r k = after_pass r (run_synchronization api r.env k.state).1

  unfoldable pub unless_stopped : Wake → Worker → Worker → Worker
  unless_stopped stopped k rest = k
  unless_stopped _ k rest = rest

  -- the loop, up to the event that stops it or the last of the rounds
  unfoldable pub run_rounds : List Round → Worker → Worker
  run_rounds [] k = k
  run_rounds (r ∷ rounds) k = unless_stopped r.wake k (run_rounds rounds (run_round r k))

  unfoldable pub run : (Bytes → ℕ) → Round → List Round → State api.Net → Worker
  unfolding startup after_pass
  run age first rounds w = run_rounds rounds (after_pass first (startup age first.env w).1)
