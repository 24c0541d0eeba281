-- ===== src/Sync/Worker/Waits.antt =====
-- When the worker waits, and what the main window sees of it then.
use steam_sales_tray.Shared.{
  ℕ, ◌+◌, ◌*◌, ◌^◌, ◌≤◌, ◌<◌, ◌≡◌, ◌≢◌, ◌⊎◌, inl, inr, List, [], ◌∷◌, arith, ap,
}
use steam_sales_tray.Shared.Bytes.{Bytes}
use steam_sales_tray.Storage.SettingsStore.{RefreshInterval, minutes_of}
use steam_sales_tray.Sync.Service.Monad.{
  SteamApi, Env, State, idle, syncing, Ends, Ends-bind, Ends-then, Ends-if, set_status, on_status,
}
use steam_sales_tray.Sync.Service.Settled.{is_failure, IsSettled, run_synchronization-settles}
use steam_sales_tray.Sync.Service.{run_synchronization}
use steam_sales_tray.Sync.Worker.{
  infinite, compute_wait_ms, reset_deadline, Round, Wake, stopped, Worker, startup, after_pass,
  unless_stopped, run_round, run_rounds, run,
}

minutes_of-bound : (i : RefreshInterval) → minutes_of i ≤ 360
unfolding minutes_of
minutes_of-bound RefreshInterval.manual = omega arith
minutes_of-bound RefreshInterval.min15 = omega arith
minutes_of-bound RefreshInterval.min30 = omega arith
minutes_of-bound RefreshInterval.min60 = omega arith
minutes_of-bound RefreshInterval.hours2 = omega arith
minutes_of-bound RefreshInterval.hours6 = omega arith

-- With an automatic interval, the wait ends exactly at the deadline that was set, one interval
-- after the tick of setting it, or is 0 when that is past, and it is never INFINITE, where the
-- tick counter does not overflow.
pub compute_wait_ms-reset_deadline :
    (i : RefreshInterval) (set_at now : ℕ)
    → 0 < minutes_of i
    → set_at + 360 * 60000 < 2 ^ 64
    → set_at ≤ now
    → let wait = compute_wait_ms (minutes_of i) now (reset_deadline (minutes_of i) set_at) in
      (wait < infinite)
      × ((now + wait ≡ set_at + minutes_of i * 60000)
          ⊎ ((wait ≡ 0) × (set_at + minutes_of i * 60000 ≤ now)))
unfolding compute_wait_ms reset_deadline
compute_wait_ms-reset_deadline i set_at now automatic room later =
    ground (arith, minutes_of-bound i)

module _ (api : SteamApi) where
  IsAtRest : State api.Net → Type 0
  IsAtRest w = w.status.status ≢ syncing

  settled-IsAtRest : (env : Env) (w : State api.Net) → IsSettled api env w → IsAtRest w
  unfolding IsAtRest
  settled-IsAtRest env w (inl (done, last)) e = ground arith
  settled-IsAtRest env w (inr (failed, last)) e = ground (arith, ap is_failure e)

  set_idle-IsAtRest : (env : Env) → Ends (λ _ w. IsAtRest w) (set_status api env idle [])
  unfolding IsAtRest set_status on_status
  set_idle-IsAtRest env = record { at = λ w e. ground arith }

  pass-IsAtRest : (env : Env) → Ends (λ _ w. IsAtRest w) (run_synchronization api env)
  pass-IsAtRest env = record {
    at = λ w. settled-IsAtRest env _ (run_synchronization-settles api env w);
  }

  startup-IsAtRest : (age : Bytes → ℕ) (env : Env) → Ends (λ _ w. IsAtRest w) (startup api age env)
  unfolding startup
  startup-IsAtRest age env =
      Ends-then _ _
        (Ends-bind _ _ λ last. Ends-if _ _ _ (pass-IsAtRest env) (set_idle-IsAtRest env))

  wake-IsAtRest :
      (wake : Wake) (k rest : Worker api)
      → IsAtRest k.state
      → IsAtRest rest.state
      → IsAtRest (unless_stopped api wake k rest).state
  unfolding unless_stopped
  wake-IsAtRest stopped k rest h g = h
  wake-IsAtRest _ k rest h g = g

  run_rounds-IsAtRest :
      (rounds : List Round) (k : Worker api)
      → IsAtRest k.state
      → IsAtRest (run_rounds api rounds k).state
  unfolding run_rounds run_round after_pass
  run_rounds-IsAtRest [] k h = h
  run_rounds-IsAtRest (r ∷ rounds) k h =
      wake-IsAtRest r.wake k _ h
        (run_rounds-IsAtRest rounds (run_round api r k) ((pass-IsAtRest r.env).at k.state))

  -- After the start of the worker and any sequence of rounds, each with its wake, its settings
  -- and its pass, the status is not Syncing.
  pub run-IsAtRest :
      (age : Bytes → ℕ) (first : Round) (rounds : List Round) (w : State api.Net)
      → (run api age first rounds w).state.status.status ≢ syncing
  unfolding run after_pass IsAtRest
  run-IsAtRest age first rounds w =
      run_rounds-IsAtRest rounds _ ((startup-IsAtRest age first.env).at w)
