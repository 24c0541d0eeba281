-- ===== src/Sync/Worker/Threads/Requests.antt =====
-- What becomes of a request, whatever the threads do in the meantime.
use steam_sales_tray.Shared.{
  ℕ, ◌<◌, ◌≡◌, ◌≢◌, refl, sym, subst, ◌∙◌, ◌⊎◌, inl, inr, some, none, true, Option, arith, Bool,
}
use steam_sales_tray.Sync.Service.Monad.{SteamApi}
use steam_sales_tray.Sync.Worker.{
  Events, set_event, request_manual_refresh, notify_settings_changed, request_clear_cache,
  stop_worker, Wake, stopped, manual_refresh, settings_changed, timed_out, wait_failed,
}
use steam_sales_tray.Sync.Worker.Threads.{
  IsAsked, Waits, System, after_wake, after_start, after_run, ask_clear, Step, asks_refresh,
  changes_settings, asks_clear, asks_stop, starts, wakes, runs, Steps, here, more,
}

pub set_event-some : (x : Option Bool) → x ≡ some true → set_event x ≡ some true
unfolding set_event
set_event-some x h = ground arith

pub set_event-signals : (x : Option Bool) → x ≢ none → set_event x ≡ some true
unfolding set_event
set_event-signals none h = absurd (h refl)
set_event-signals (some b) h = refl

module _ (api : SteamApi) (waits : Waits) where
  abbrev IsWaitedFor : ℕ → System api waits → Type 0
  IsWaitedFor n t = (n < t.wakeups) ⊎ ((n ≡ t.wakeups) × IsAsked t.events)

  request_manual_refresh-IsAsked : (e : Events) → IsAsked e → IsAsked (request_manual_refresh e)
  unfolding request_manual_refresh
  request_manual_refresh-IsAsked e (inl h) = inl (set_event-some e.manual h)
  request_manual_refresh-IsAsked e (inr h) = inr h

  notify_settings_changed-IsAsked : (e : Events) → IsAsked e → IsAsked (notify_settings_changed e)
  unfolding notify_settings_changed
  notify_settings_changed-IsAsked e (inl h) = inl h
  notify_settings_changed-IsAsked e (inr h) = inr (set_event-some e.settings h)

  stop_worker-IsAsked : (e : Events) → IsAsked e → IsAsked (stop_worker e)
  unfolding stop_worker
  stop_worker-IsAsked e h = ground arith

  -- A wake that is not by the event to stop leads to a pass.
  wake-IsWaitedFor :
      (n : ℕ) (s : System api waits) (k : Wake) (e : Events)
      → waits.Returns s.events k e
      → IsWaitedFor n s
      → IsWaitedFor n (after_wake api waits k e s)
  unfolding after_wake
  wake-IsWaitedFor n s stopped e ret (inl before) = inl before
  wake-IsWaitedFor n s stopped e ret (inr (same, inl h)) =
      inr (same, inl (waits.keeps_manual s.events e stopped ret (ground arith) ∙ h))
  wake-IsWaitedFor n s stopped e ret (inr (same, inr h)) =
      inr (same, inr (waits.keeps_settings s.events e stopped ret (ground arith) ∙ h))
  wake-IsWaitedFor n s manual_refresh e ret h = inl (ground arith)
  wake-IsWaitedFor n s settings_changed e ret h = inl (ground arith)
  wake-IsWaitedFor n s timed_out e ret h = inl (ground arith)
  wake-IsWaitedFor n s wait_failed e ret h = inl (ground arith)

  asked-IsWaitedFor :
      (n : ℕ) (s : System api waits) (e : Events)
      → (IsAsked s.events → IsAsked e)
      → IsWaitedFor n s
      → IsWaitedFor n (record s { events = e })
  asked-IsWaitedFor n s e keeps (inl before) = inl before
  asked-IsWaitedFor n s e keeps (inr (same, asked)) = inr (same, keeps asked)

  Step-IsWaitedFor :
      (n : ℕ) (s t : System api waits) → Step api waits s t → IsWaitedFor n s → IsWaitedFor n t
  unfolding ask_clear after_start after_run
  Step-IsWaitedFor n s t (asks_refresh e) h = subst (IsWaitedFor n) (sym e) (
      asked-IsWaitedFor n s (request_manual_refresh s.events)
        (request_manual_refresh-IsAsked s.events) h)
  Step-IsWaitedFor n s t (changes_settings e) h = subst (IsWaitedFor n) (sym e) (
      asked-IsWaitedFor n s (notify_settings_changed s.events)
        (notify_settings_changed-IsAsked s.events) h)
  Step-IsWaitedFor n s t (asks_clear e) h = subst (IsWaitedFor n) (sym e) h
  Step-IsWaitedFor n s t (asks_stop e) h =
      subst (IsWaitedFor n) (sym e)
        (asked-IsWaitedFor n s (stop_worker s.events) (stop_worker-IsAsked s.events) h)
  Step-IsWaitedFor n s t (starts age first starting e) h = subst (IsWaitedFor n) (sym e) h
  Step-IsWaitedFor n s t (wakes k e waiting ret eq) h =
      subst (IsWaitedFor n) (sym eq) (wake-IsWaitedFor n s k e ret h)
  Step-IsWaitedFor n s t (runs r woken e) h = subst (IsWaitedFor n) (sym e) h

  Steps-IsWaitedFor :
      (n : ℕ) (s t : System api waits) → Steps api waits s t → IsWaitedFor n s → IsWaitedFor n t
  Steps-IsWaitedFor n s t here h = h
  Steps-IsWaitedFor n s t (more {t = u} steps step) h =
      Step-IsWaitedFor n u t step (Steps-IsWaitedFor n s u steps h)

  -- What other threads ask the worker for.
  pub data Request : Type 0 where
    refresh settings_change clear : Request

  abbrev pub ask : Request → System api waits → System api waits
  ask refresh s = record s { events = request_manual_refresh s.events }
  ask settings_change s = record s { events = notify_settings_changed s.events }
  ask clear s =
      let (w, e) = request_clear_cache api (s.worker.state, s.events) in
      record s { worker = record s.worker { state = w }; events = e }

  ask-IsAsked :
      (q : Request) (s : System api waits)
      → s.events.manual ≢ none
      → s.events.settings ≢ none
      → IsAsked (ask q s).events
  unfolding request_manual_refresh notify_settings_changed request_clear_cache
  ask-IsAsked refresh s m c = inl (set_event-signals s.events.manual m)
  ask-IsAsked settings_change s m c = inr (set_event-signals s.events.settings c)
  ask-IsAsked clear s m c = inl (set_event-signals s.events.manual m)

  ask-wakeups : (q : Request) (s : System api waits) → (ask q s).wakeups ≡ s.wakeups
  ask-wakeups refresh s = refl
  ask-wakeups settings_change s = refl
  ask-wakeups clear s = refl

  -- No request is lost, however the threads interleave: after RequestManualRefresh,
  -- NotifySettingsChanged or RequestClearCache on a started worker, also during a pass or the start,
  -- either the worker has woken for a pass since, or its next wait returns, and not by its timeout.
  pub ask-served :
      (q : Request) (s t : System api waits)
      → s.events.manual ≢ none
      → s.events.settings ≢ none
      → Steps api waits (ask q s) t
      → (s.wakeups < t.wakeups)
        ⊎ (((k : Wake) × (e : Events) × waits.Returns t.events k e)
            × ((k : Wake) (e : Events) → waits.Returns t.events k e → k ≢ timed_out))
  ask-served q s t m c steps =
      elim (Steps-IsWaitedFor s.wakeups (ask q s) t steps
        (inr (sym (ask-wakeups q s), ask-IsAsked q s m c))) [
          | inl began ↦ inl began
          | inr (same, asked) ↦
              inr (waits.returns t.events asked, λ k e ret. waits.in_time t.events e k ret asked)
        ]
