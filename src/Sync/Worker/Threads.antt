-- ===== src/Sync/Worker/Threads.antt =====
-- The worker beside the threads that ask it for something: their steps in any order. A thread sets
-- events and the request to clear the cache; the worker opens the database and runs its first pass,
-- then it waits, wakes, runs a pass and waits again. Of the state that the others write, a pass reads
-- the request to clear the cache alone, and once, so a pass is one step.
pub mod Requests
pub mod Stopping
pub mod Evolution
use steam_sales_tray.Shared.{
  ℕ, ◌+◌, ◌≡◌, ◌≢◌, ◌⊎◌, Bool, true, false, none, some, Option, ltb, if◌then◌else◌,
}
use steam_sales_tray.Shared.Bytes.{Bytes}
use steam_sales_tray.Storage.Connection.{Connection}
use steam_sales_tray.Storage.Database.{get_last_successful_sync_utc}
use steam_sales_tray.Storage.Migrations.{open_database}
use steam_sales_tray.Sync.Service.Monad.{SteamApi}
use steam_sales_tray.Sync.Worker.{
  Events, request_manual_refresh, notify_settings_changed, stop_worker, set_clear_requested, Wake,
  stopped, manual_refresh, settings_changed, timed_out, wait_failed, Round, Worker, startup,
  startup_freshness_seconds, after_pass, run_round,
}

-- An event that the worker was asked by is signalled.
abbrev pub IsAsked : Events → Type 0
IsAsked e = (e.manual ≡ some true) ⊎ (e.settings ≡ some true)

-- WaitForMultipleObjects on the three events, with a time: what it may give on events as they are,
-- and how it leaves them. It may fail, and then leaves them. Of several events that are signalled the
-- first counts; it resets the one it gives, but not the event to stop, which is a manual one.
pub record Waits : Type 1 where
  pub Returns : Events → Wake → Events → Type 0
  pub stop_first :
      (e e' : Events) (k : Wake)
      → Returns e k e'
      → k ≢ wait_failed
      → e.stop ≡ some true
      → k ≡ stopped
  pub keeps_stop : (e e' : Events) (k : Wake) → Returns e k e' → e'.stop ≡ e.stop
  pub keeps_manual :
      (e e' : Events) (k : Wake) → Returns e k e' → k ≢ manual_refresh → e'.manual ≡ e.manual
  pub keeps_settings :
      (e e' : Events) (k : Wake) → Returns e k e' → k ≢ settings_changed → e'.settings ≡ e.settings
  pub returns : (e : Events) → IsAsked e → (k : Wake) × (e' : Events) × Returns e k e'
  pub in_time : (e e' : Events) (k : Wake) → Returns e k e' → IsAsked e → k ≢ timed_out

pub data Phase : Type 0 where
  starting waiting woken ended : Phase

-- Whether the synchronisation at the start runs, as `startup` tests it: `age` is SecondsSinceUtc.
abbrev is_stale : (Bytes → ℕ) → Connection → Bool
is_stale age c =
    ltb startup_freshness_seconds (age (get_last_successful_sync_utc (open_database c).1).0)

module _ (api : SteamApi) (waits : Waits) where
  -- `wakeups` counts the returns of the wait that lead to a pass, `failures` those of them that are
  -- failures, and `begun` the passes that have begun, the one at the start included.
  pub record System : Type 0 where
    pub worker : Worker api
    pub events : Events
    pub phase : Phase
    pub wakeups : ℕ
    pub failures : ℕ
    pub begun : ℕ

  unfoldable pub after_wake : Wake → Events → System → System
  after_wake stopped e s = record s { events = e; phase = ended }
  after_wake wait_failed e s = record s {
    events = e;
    phase = woken;
    wakeups = s.wakeups + 1;
    failures = s.failures + 1;
  }
  after_wake _ e s = record s { events = e; phase = woken; wakeups = s.wakeups + 1 }

  -- what Run does before its loop: the opening of the database, and the first pass
  unfoldable pub after_start : (Bytes → ℕ) → Round → System → System
  after_start age first s =
      let state = s.worker.state in
      record s {
        worker = after_pass api first (startup api age first.env state).1;
        phase = waiting;
        begun = if is_stale age state.db then s.begun + 1 else s.begun;
      }

  unfoldable pub after_run : Round → System → System
  after_run r s = record s {
    worker = run_round api r s.worker;
    phase = waiting;
    begun = s.begun + 1;
  }

  unfoldable pub ask_clear : System → System
  unfolding set_clear_requested
  ask_clear s = record s {
    worker = record s.worker { state = set_clear_requested api s.worker.state };
  }

  pub data Step (s t : System) : Type 0 where
    asks_refresh : t ≡ record s { events = request_manual_refresh s.events } → Step s t
    changes_settings : t ≡ record s { events = notify_settings_changed s.events } → Step s t
    -- the first half of RequestClearCache; the second is that of a refresh
    asks_clear : t ≡ ask_clear s → Step s t
    asks_stop : t ≡ record s { events = stop_worker s.events } → Step s t
    starts :
        (age : Bytes → ℕ) (first : Round)
        → s.phase ≡ starting
        → t ≡ after_start age first s
        → Step s t
    wakes :
        (k : Wake) (e : Events)
        → s.phase ≡ waiting
        → waits.Returns s.events k e
        → t ≡ after_wake k e s
        → Step s t
    runs : (r : Round) → s.phase ≡ woken → t ≡ after_run r s → Step s t

  -- any number of steps
  pub data Steps (s : System) : System → Type 0 where
    here : Steps s s
    more : {t u : System} → Steps s t → Step t u → Steps s u
