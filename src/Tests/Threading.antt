-- ===== src/Tests/Threading.antt =====
-- Tests of the worker beside other threads.
use steam_sales_tray.Shared.{
  ◌+◌, ◌<◌, ◌≤◌, ◌≡◌, ◌≢◌, ◌⊎◌, refl, ap, ◌∙◌, Bool, true, false, Option, none, some, List, [],
  arith, if◌then◌else◌,
}
use steam_sales_tray.Storage.Connection.{Outcome}
use steam_sales_tray.Sync.Cache.{Evolves}
use steam_sales_tray.Sync.Service.Evolution.{cache}
use steam_sales_tray.Sync.Worker.{
  Events, Round, Wake, stopped, manual_refresh, settings_changed, timed_out, wait_failed,
  stop_worker, request_manual_refresh,
}
use steam_sales_tray.Sync.Worker.Threads.{
  IsAsked, Waits, System, starting, waiting, woken, asks_refresh, starts, wakes, runs, Steps, here,
  more, after_wake, after_start, after_run,
}
use steam_sales_tray.Sync.Worker.Threads.Requests.{ask, clear, ask-served}
use steam_sales_tray.Sync.Worker.Threads.Stopping.{due, stop_worker-ends}
use steam_sales_tray.Sync.Worker.Threads.Evolution.{cache_in, worker-Evolves}
use steam_sales_tray.Tests.Data.{client, surroundings, at_start}

abbrev is_set : Option Bool → Bool
is_set none = false
is_set (some signalled) = signalled

-- A WaitForMultipleObjects that returns at once.
wait : Events → Wake × Events
wait e =
    if is_set e.stop
    then (stopped, e)
    else if is_set e.manual
    then (manual_refresh, record e { manual = some false })
    else if is_set e.settings
    then (settings_changed, record e { settings = some false })
    else (timed_out, e)

abbrev Gives : Events → Wake → Events → Type 0
Gives e k e' = (k ≡ (wait e).0) × (e' ≡ (wait e).1)

wait-stop_first :
    (e e' : Events) (k : Wake) → Gives e k e' → k ≢ wait_failed → e.stop ≡ some true → k ≡ stopped
unfolding wait
wait-stop_first e e' k (h, g) n s = h ∙ rw s

wait-keeps_stop : (e e' : Events) (k : Wake) → Gives e k e' → e'.stop ≡ e.stop
unfolding wait
wait-keeps_stop e e' k (h, g) = ap (λ (x : Events). x.stop) g ∙ ground arith

wait-keeps_manual :
    (e e' : Events) (k : Wake) → Gives e k e' → k ≢ manual_refresh → e'.manual ≡ e.manual
unfolding wait
wait-keeps_manual e e' k (h, g) n = ap (λ (x : Events). x.manual) g ∙ ground arith

wait-keeps_settings :
    (e e' : Events) (k : Wake) → Gives e k e' → k ≢ settings_changed → e'.settings ≡ e.settings
unfolding wait
wait-keeps_settings e e' k (h, g) n = ap (λ (x : Events). x.settings) g ∙ ground arith

wait-in_time : (e e' : Events) (k : Wake) → Gives e k e' → IsAsked e → k ≢ timed_out
unfolding wait
wait-in_time e e' k (h, g) asked = ground arith

abbrev waits : Waits
waits = record {
  Returns = Gives;
  stop_first = wait-stop_first;
  keeps_stop = wait-keeps_stop;
  keeps_manual = wait-keeps_manual;
  keeps_settings = wait-keeps_settings;
  returns = λ e asked. ((wait e).0, (wait e).1, (refl, refl));
  in_time = wait-in_time;
}

abbrev one_round : Round
one_round = record { wake = timed_out; env = surroundings; interval = 30; tick = 1000 }

abbrev quiet : Events
quiet = record { stop = some false; manual = some false; settings = some false; joinable = true }

abbrev created : List Outcome → System client waits
created outcomes = record {
  worker = record { state = at_start outcomes; deadline = 0 };
  events = quiet;
  phase = starting;
  wakeups = 0;
  failures = 0;
  begun = 0;
}

abbrev launched : List Outcome → System client waits
launched outcomes = after_start client waits (λ last. 400) one_round (created outcomes)

-- The user asks for a refresh while the worker waits, and the worker wakes and runs.
abbrev asked : List Outcome → System client waits
asked outcomes = record (launched outcomes) { events = request_manual_refresh quiet }

abbrev awake : List Outcome → System client waits
awake outcomes = after_wake client waits manual_refresh quiet (asked outcomes)

abbrev again : List Outcome → System client waits
again outcomes = after_run client waits one_round (awake outcomes)

by_request : Gives (request_manual_refresh quiet) manual_refresh quiet
unfolding wait request_manual_refresh
by_request = (refl, refl)

is_woken : (awake []).phase ≡ woken
unfolding after_wake
is_woken = refl

is_waiting : (launched []).phase ≡ waiting
unfolding after_start
is_waiting = refl

asks : asked [] ≡ record (launched []) { events = request_manual_refresh (launched []).events }
unfolding after_start
asks = refl

woken_and_run : Steps client waits (created []) (again [])
woken_and_run =
    more
      (more (more (more here (starts (λ last. 400) one_round refl refl)) (asks_refresh asks))
        (wakes manual_refresh quiet is_waiting by_request refl))
      (runs one_round is_woken refl)

worker-Evolves_example :
    Evolves client (cache client (at_start [])) (cache_in client waits (again []))
worker-Evolves_example = worker-Evolves client waits (created []) (again []) woken_and_run

-- The cache is to be cleared while a pass is about to run.
abbrev clear_awake : System client waits
clear_awake = ask client waits clear (awake [])

abbrev clear_again : System client waits
clear_again = after_run client waits one_round clear_awake

still_woken : clear_awake.phase ≡ woken
unfolding after_wake
still_woken = refl

has_manual : (awake []).events.manual ≢ none
unfolding after_wake
has_manual = ground arith

has_settings : (awake []).events.settings ≢ none
unfolding after_wake
has_settings = ground arith

ask-served_example :
    ((awake []).wakeups < clear_again.wakeups)
    ⊎ (((k : Wake) × (e : Events) × Gives clear_again.events k e)
        × ((k : Wake) (e : Events) → Gives clear_again.events k e → k ≢ timed_out))
ask-served_example =
    ask-served client waits clear (awake []) clear_again has_manual has_settings
      (more here (runs one_round still_woken refl))

-- Stop comes while a pass is about to run, and the pass runs.
abbrev stopping : System client waits
stopping = record (awake []) { events = stop_worker (awake []).events }

abbrev stopped_once : System client waits
stopped_once = after_run client waits one_round stopping

is_joinable : (awake []).events.joinable ≡ true
unfolding after_wake
is_joinable = refl

has_stop : (awake []).events.stop ≢ none
unfolding after_wake
has_stop = ground arith

about_to_run : stopping.phase ≡ woken
unfolding after_wake
about_to_run = refl

stop_worker-ends_example :
    (stopped_once.begun + (awake []).failures
      ≤ (awake []).begun + due client waits (awake []).phase + stopped_once.failures)
    × ((k : Wake) (e : Events) → Gives stopped_once.events k e → k ≢ wait_failed → k ≡ stopped)
stop_worker-ends_example =
    stop_worker-ends client waits (awake []) stopped_once is_joinable has_stop
      (more here (runs one_round about_to_run refl))
