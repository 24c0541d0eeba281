-- ===== src/Sync/Service/Settled.antt =====
-- How a pass of the worker ends: which status it leaves, and which message the main window gets last.
use steam_sales_tray.Shared.{
  ◌≡◌, refl, ◌⊎◌, inl, inr, Bool, true, false, Option, none, some, List, [], ◌∷◌, ◌++◌,
  if◌then◌else◌, arith, is_empty,
}
use steam_sales_tray.Shared.Bytes.{Bytes, Wide}
use steam_sales_tray.Steam.Models.{ChangedDates, DetailedSalesRecord}
use steam_sales_tray.Steam.Client.{ResultKind, FinancialResult, is_ok}
use steam_sales_tray.Storage.Models.{ProductUnits}
use steam_sales_tray.Sync.Service.Monad.{
  SyncStatus, idle, syncing, missing_api_key, database_error, Message, sync_completed, sync_failed,
  totals_changed, Ends, Ends-bind, Ends-then, Ends-if, Ends-bind_from, ◌>>◌, SteamApi, Env, World,
  M, set_status, on_status, post, log, on_db, pure,
}
use steam_sales_tray.Sync.Service.Dates.{
  status_from_kind, fail_request, after_store, store_date, process_date, process_dates,
}
use steam_sales_tray.Sync.Service.{
  usable_key, fail_pass, finish_unchanged, announce, finish_changed, process_changed,
  process_answer, synchronize, with_key, run_synchronization,
}

abbrev pub last_message : List Message → Option Message
last_message [] = none
last_message (m ∷ []) = some m
last_message (m ∷ n ∷ ms) = last_message (n ∷ ms)

last_message-append : (ms : List Message) (m : Message) → last_message (ms ++ m ∷ []) ≡ some m
last_message-append [] m = refl
last_message-append (n ∷ []) m = refl
last_message-append (n ∷ k ∷ ms) m = last_message-append (k ∷ ms) m

-- A status that reports an error to the user.
abbrev pub is_failure : SyncStatus → Bool
is_failure idle = false
is_failure syncing = false
is_failure _ = true

status_from_kind-is_failure : (k : ResultKind) → is_failure (status_from_kind k) ≡ true
unfolding status_from_kind
status_from_kind-is_failure ResultKind.success = refl
status_from_kind-is_failure _ = refl

module _ (api : SteamApi) (env : Env) where
  abbrev pub HasFailed : World api env → Type 0
  HasFailed w = (is_failure w.status.status ≡ true) × (last_message w.posted ≡ some sync_failed)

  abbrev pub HasCompleted : World api env → Type 0
  HasCompleted w = (w.status.status ≡ idle) × (last_message w.posted ≡ some sync_completed)

  abbrev pub IsSettled : World api env → Type 0
  IsSettled w = HasCompleted w ⊎ HasFailed w

  pub fail_pass-HasFailed :
      (s : SyncStatus) (message : Wide)
      → is_failure s ≡ true
      → Ends (λ _ w. HasFailed w) (fail_pass api env s message)
  unfolding fail_pass set_status post ◌>>◌
  fail_pass-HasFailed s message h = record {
    at = λ w. (h, last_message-append w.posted sync_failed);
  }

  pub fail_request-HasFailed :
      (name : Wide) (r : FinancialResult) → Ends (λ _ w. HasFailed w) (fail_request api env name r)
  unfolding fail_request set_status post log on_db ◌>>◌
  fail_request-HasFailed name r = record {
    at = λ w. (status_from_kind-is_failure r.kind, last_message-append w.posted sync_failed);
  }

  -- A false result comes after a failure.
  abbrev pub FailsOnFalse : Bool → World api env → Type 0
  FailsOnFalse done w = done ≡ false → HasFailed w

  pure-FailsOnFalse : Ends FailsOnFalse (pure api env true)
  unfolding pure
  pure-FailsOnFalse = record { at = λ w h. ground arith }

  after_store-FailsOnFalse :
      (date : Bytes) (initial stored : Bool)
      → Ends FailsOnFalse (after_store api env date initial stored)
  unfolding after_store set_status on_status post log on_db pure ◌>>◌
  after_store-FailsOnFalse date initial true = record { at = λ w h. ground arith }
  after_store-FailsOnFalse date initial false = record {
    at = λ w h. (refl, last_message-append w.posted sync_failed);
  }

  store_date-FailsOnFalse :
      (date now : Bytes) (initial : Bool) (records : List DetailedSalesRecord)
      → Ends FailsOnFalse (store_date api env date now initial records)
  unfolding store_date
  store_date-FailsOnFalse date now initial records =
      Ends-bind _ _ λ stored. after_store-FailsOnFalse date initial stored

  then_false :
      (m : M api env (Unit {0}))
      → Ends (λ _ w. HasFailed w) m
      → Ends FailsOnFalse (m >> pure api env false)
  unfolding pure ◌>>◌
  then_false m e = record { at = λ w h. e.at w }

  process_date-FailsOnFalse :
      (key now : Bytes) (initial : Bool) (date : Bytes)
      → Ends FailsOnFalse (process_date api env key now initial date)
  unfolding process_date
  process_date-FailsOnFalse key now initial date =
      Ends-bind {A = FinancialResult × List DetailedSalesRecord} _ _ λ answer.
        Ends-if (is_ok answer.0) _ _ (store_date-FailsOnFalse date now initial answer.1)
          (then_false _ (fail_request-HasFailed _ answer.0))

  continue-FailsOnFalse :
      (rest : M api env Bool) (done : Bool) (w : World api env)
      → Ends FailsOnFalse rest
      → FailsOnFalse done w
      → FailsOnFalse
          ((if done then rest else pure api env false) w).0
          ((if done then rest else pure api env false) w).1
  unfolding pure
  continue-FailsOnFalse rest true w e h = e.at w
  continue-FailsOnFalse rest false w e h = h

  pub process_dates-FailsOnFalse :
      (key now : Bytes) (initial : Bool) (dates : List Bytes)
      → Ends FailsOnFalse (process_dates api env key now initial dates)
  unfolding process_dates
  process_dates-FailsOnFalse key now initial [] = pure-FailsOnFalse
  process_dates-FailsOnFalse key now initial (date ∷ dates) =
      let rest = process_dates-FailsOnFalse key now initial dates in
      Ends-bind_from _ _ (process_date-FailsOnFalse key now initial date) λ done w h.
        continue-FailsOnFalse (process_dates api env key now initial dates) done w rest h

  pub finish_unchanged-HasCompleted :
      (changed : ChangedDates) → Ends (λ _ w. HasCompleted w) (finish_unchanged api env changed)
  unfolding finish_unchanged
  finish_unchanged-HasCompleted changed = Ends-then _ _ (
      Ends-then _ _ (
        unfold on_status post ◌>>◌ in
        record { at = λ w. (refl, last_message-append w.posted sync_completed) }))

  announce-HasCompleted :
      (notification : Wide) → Ends (λ _ w. HasCompleted w) (announce api env notification)
  unfolding announce on_status log post ◌>>◌
  announce-HasCompleted notification = record {
    at = λ w. (refl, last_message-append (w.posted ++ totals_changed ∷ []) sync_completed);
  }

  pub finish_changed-HasCompleted :
      (changed : ChangedDates) (now : Bytes) (initial : Bool) (before : List ProductUnits)
      → Ends (λ _ w. HasCompleted w) (finish_changed api env changed now initial before)
  unfolding finish_changed
  finish_changed-HasCompleted changed now initial before = Ends-then _ _ (
      Ends-then _ _
        (Ends-then _ _ (Ends-then _ _ (Ends-bind _ _ λ text. announce-HasCompleted text))))

  settle :
      (finish : M api env (Unit {0})) (done : Bool) (w : World api env)
      → Ends (λ _ w. HasCompleted w) finish
      → FailsOnFalse done w
      → IsSettled ((if done then finish else pure api env tt) w).1
  unfolding pure
  settle finish true w e h = inl (e.at w)
  settle finish false w e h = inr (h refl)

  process_changed-IsSettled :
      (key now : Bytes) (initial : Bool) (changed : ChangedDates)
      → Ends (λ _ w. IsSettled w) (process_changed api env key now initial changed)
  unfolding process_changed
  process_changed-IsSettled key now initial changed = Ends-bind _ _ λ cursor. Ends-then _ _ (
      Ends-then _ _ (
        Ends-then _ _ (
          Ends-bind _ _ λ before.
            Ends-bind_from _ _ (process_dates-FailsOnFalse key now initial _) λ done w h.
              settle _ done w (finish_changed-HasCompleted changed now initial before) h)))

  settled :
      {A : Type 0} {m : M api env A} → Ends (λ _ w. HasFailed w) m → Ends (λ _ w. IsSettled w) m
  settled e = record { at = λ w. inr (e.at w) }

  synchronize-IsSettled : (key : Bytes) → Ends (λ _ w. IsSettled w) (synchronize api env key)
  unfolding synchronize process_answer
  synchronize-IsSettled key = Ends-bind _ _ λ hwm.
      Ends-bind {A = FinancialResult × ChangedDates} _ _ λ answer.
        Ends-if (is_ok answer.0) _ _
          (Ends-then _ _ (
            Ends-then _ _ (
              Ends-if (is_empty answer.1.dates) _ _
                (record { at = λ w. inl ((finish_unchanged-HasCompleted answer.1).at w) })
                (process_changed-IsSettled key env.utc_now _ answer.1))))
          (settled (fail_request-HasFailed _ answer.0))

  with_key-IsSettled : (o : Option Bytes) → Ends (λ _ w. IsSettled w) (with_key api env o)
  unfolding with_key
  with_key-IsSettled none = settled (fail_pass-HasFailed missing_api_key _ refl)
  with_key-IsSettled (some key) = synchronize-IsSettled key

  run_synchronization-Ends : Ends (λ _ w. IsSettled w) (run_synchronization api env)
  unfolding run_synchronization
  run_synchronization-Ends = Ends-then _ _ (
      Ends-then _ _ (
        Ends-bind _ _ λ opened.
          Ends-if opened _ _ (Ends-then _ _ (with_key-IsSettled (usable_key env.secret)))
            (settled (fail_pass-HasFailed database_error _ refl))))

  -- Whatever the database, the client and the key store do, a pass ends settled: with the status
  -- Idle and WM_APP_SYNC_COMPLETED as the last message, or with the status of an error and
  -- WM_APP_SYNC_FAILED as the last message. It never leaves the status Syncing.
  pub run_synchronization-settles :
      (w : World api env) → IsSettled (run_synchronization api env w).1
  run_synchronization-settles w = run_synchronization-Ends.at w
