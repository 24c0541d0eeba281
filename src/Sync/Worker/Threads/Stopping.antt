-- ===== src/Sync/Worker/Threads/Stopping.antt =====
-- The end of the worker, whatever the threads do in the meantime.
use steam_sales_tray.Shared.{
  ℕ, ◌+◌, ◌≤◌, ◌≡◌, ◌≢◌, ◌⊎◌, inl, inr, refl, sym, subst, ◌∙◌, some, none, true, arith,
}
use steam_sales_tray.Shared.Bytes.{Bytes}
use steam_sales_tray.Sync.Service.Monad.{SteamApi}
use steam_sales_tray.Sync.Worker.{
  Events, request_manual_refresh, notify_settings_changed, stop_worker, Wake, stopped,
  manual_refresh, settings_changed, timed_out, wait_failed, Round,
}
use steam_sales_tray.Sync.Worker.Threads.Requests.{set_event-some, set_event-signals}
use steam_sales_tray.Sync.Worker.Threads.{
  Waits, Phase, starting, waiting, woken, System, after_wake, after_start, after_run, ask_clear,
  Step, asks_refresh, changes_settings, asks_clear, asks_stop, starts, wakes, runs, Steps, here,
  more,
}

module _ (api : SteamApi) (waits : Waits) where
  -- the passes that are bound to begin: after a wake, and perhaps one at the start
  abbrev pub due : Phase → ℕ
  due starting = 1
  due woken = 1
  due _ = 0

  -- The event to stop is signalled, and since `from` there were no more passes than were due then and
  -- than waits have failed.
  abbrev IsStopping : System api waits → System api waits → Type 0
  IsStopping from t =
      (t.begun + due t.phase + from.failures ≤ from.begun + due from.phase + t.failures)
      × (t.events.stop ≡ some true)

  failed_or : (k : Wake) → (k ≡ wait_failed) ⊎ (k ≢ wait_failed)
  failed_or stopped = inr (ground arith)
  failed_or manual_refresh = inr (ground arith)
  failed_or settings_changed = inr (ground arith)
  failed_or timed_out = inr (ground arith)
  failed_or wait_failed = inl refl

  -- While the event to stop is signalled, a wait that does not fail ends the loop.
  wake-IsStopping :
      (from s : System api waits) (k : Wake) (e : Events)
      → s.phase ≡ waiting
      → waits.Returns s.events k e
      → IsStopping from s
      → IsStopping from (after_wake api waits k e s)
  unfolding after_wake
  wake-IsStopping from s k e phase ret (few, stop) =
      let kept = waits.keeps_stop s.events e k ret ∙ stop in
      let counted : s.begun + 0 + from.failures ≤ from.begun + due from.phase + s.failures =
        rw phase at few in
      elim (failed_or k) [
        | inl failed ↦ rw failed (omega (arith, counted), kept)
        | inr worked ↦ rw (waits.stop_first s.events e k ret worked stop) (counted, kept)
      ]

  stop_worker-stop : (e : Events) → e.stop ≡ some true → (stop_worker e).stop ≡ some true
  unfolding stop_worker
  stop_worker-stop e h = ground (arith, set_event-some e.stop h)

  start-IsStopping :
      (from s : System api waits) (age : Bytes → ℕ) (first : Round)
      → s.phase ≡ starting
      → IsStopping from s
      → IsStopping from (after_start api waits age first s)
  unfolding after_start
  start-IsStopping from s age first phase (few, stop) =
      let counted : s.begun + 1 + from.failures ≤ from.begun + due from.phase + s.failures =
        rw phase at few in
      (ground (arith, counted), stop)

  run-IsStopping :
      (from s : System api waits) (r : Round)
      → s.phase ≡ woken
      → IsStopping from s
      → IsStopping from (after_run api waits r s)
  unfolding after_run
  run-IsStopping from s r phase (few, stop) =
      let counted : s.begun + 1 + from.failures ≤ from.begun + due from.phase + s.failures =
        rw phase at few in
      (omega (arith, counted), stop)

  Step-IsStopping :
      (from s t : System api waits) → Step api waits s t → IsStopping from s → IsStopping from t
  unfolding ask_clear request_manual_refresh notify_settings_changed
  Step-IsStopping from s t (asks_refresh e) h = subst (IsStopping from) (sym e) h
  Step-IsStopping from s t (changes_settings e) h = subst (IsStopping from) (sym e) h
  Step-IsStopping from s t (asks_clear e) h = subst (IsStopping from) (sym e) h
  Step-IsStopping from s t (asks_stop e) h =
      subst (IsStopping from) (sym e) (h.0, stop_worker-stop s.events h.1)
  Step-IsStopping from s t (starts age first phase e) h =
      subst (IsStopping from) (sym e) (start-IsStopping from s age first phase h)
  Step-IsStopping from s t (wakes k e phase ret eq) h =
      subst (IsStopping from) (sym eq) (wake-IsStopping from s k e phase ret h)
  Step-IsStopping from s t (runs r phase e) h =
      subst (IsStopping from) (sym e) (run-IsStopping from s r phase h)

  Steps-IsStopping :
      (from s t : System api waits) → Steps api waits s t → IsStopping from s → IsStopping from t
  Steps-IsStopping from s t here h = h
  Steps-IsStopping from s t (more {t = u} steps step) h =
      Step-IsStopping from u t step (Steps-IsStopping from s u steps h)

  -- After Stop on a started worker, whatever is asked for, every wait that returns without failing
  -- ends the loop. The passes that still begin, from then on, are at most the one that is due, where
  -- the worker is still to start or has woken, and one for each wait that fails: none where the
  -- worker waits and no wait fails.
  pub stop_worker-ends :
      (s t : System api waits)
      → s.events.joinable ≡ true
      → s.events.stop ≢ none
      → Steps api waits (record s { events = stop_worker s.events }) t
      → (t.begun + s.failures ≤ s.begun + due s.phase + t.failures)
        × ((k : Wake) (e : Events) → waits.Returns t.events k e → k ≢ wait_failed → k ≡ stopped)
  unfolding stop_worker
  stop_worker-ends s t j m steps =
      let stop : (stop_worker s.events).stop ≡ some true =
        rw j (set_event-signals s.events.stop m) in
      let (few, signalled) =
        Steps-IsStopping s (record s { events = stop_worker s.events }) t steps
          (omega arith, stop) in
      (omega (arith, few), λ k e ret worked. waits.stop_first t.events e k ret worked signalled)
