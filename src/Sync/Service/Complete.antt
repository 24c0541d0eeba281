-- ===== src/Sync/Service/Complete.antt =====
-- What a pass that ends with the status Idle has done: every date that Steam named is stored.
use steam_sales_tray.Shared.{
  ◌≡◌, refl, sym, ap, ◌∙◌, ◌⊎◌, inl, inr, Bool, true, false, ◌||◌, List, [], ◌∷◌, select,
  if◌then◌else◌, Bool-cases, is_empty, arith, ◌≢◌,
}
use steam_sales_tray.Shared.Bytes.{Bytes, Wide, bytes_eq, bytes_eq_iff}
use steam_sales_tray.Steam.Models.{ChangedDates}
use steam_sales_tray.Steam.Client.{FinancialResult, is_ok}
use steam_sales_tray.Storage.Models.{ProductUnits}
use steam_sales_tray.Storage.Database.{
  get_backfill_cursor, get_changed_dates_highwatermark, set_last_successful_check_utc,
}
use steam_sales_tray.Storage.Migrations.Sales.{committed_sales}
use steam_sales_tray.Sync.Service.Monad.{
  SteamApi, Env, World, idle, log, Ends, Ends-bind, Ends-then, Ends-bind_from, pure, on_db, ◌>>=◌,
  ◌>>◌,
}
use steam_sales_tray.Sync.Service.Sales.{contains, IsAnswered, process_dates-stores}
use steam_sales_tray.Sync.Service.Settled.{
  is_failure, HasFailed, FailsOnFalse, process_dates-FailsOnFalse, fail_request-HasFailed,
}
use steam_sales_tray.Sync.Service.Takes.{same_sales, finish_changed-Takes}
use steam_sales_tray.Sync.Service.Dates.{fail_request, process_dates}
use steam_sales_tray.Sync.Service.{
  insert_date, sort_dates, already_synced, dates_left, finish_changed, finish_unchanged,
  process_changed, process_left, process_answer, synchronize, request_changed_dates, is_initial,
}

no_dates : (e : Bytes) (dates : List Bytes) → is_empty dates ≡ true → contains e dates ≢ true
no_dates e [] h k = ground arith
no_dates e (d ∷ dates) h k = ground arith

contains-insert_date :
    (e d : Bytes) (dates : List Bytes) → contains e (insert_date d dates) ≡ contains e (d ∷ dates)
unfolding insert_date
contains-insert_date e d [] = refl
contains-insert_date e d (x ∷ dates) = ground (arith, contains-insert_date e d dates)

contains-sort_dates :
    (e : Bytes) (dates : List Bytes) → contains e (sort_dates dates) ≡ contains e dates
unfolding sort_dates
contains-sort_dates e [] = refl
contains-sort_dates e (d ∷ dates) =
    contains-insert_date e d (sort_dates dates)
    ∙ ap (λ b. bytes_eq e d || b) (contains-sort_dates e dates)

-- A date that is listed is skipped or left to process.
contains-dates_left :
    (initial : Bool) (cursor e : Bytes) (dates : List Bytes)
    → contains e dates ≡ true
    → already_synced initial cursor e ≡ false
    → contains e (dates_left initial cursor dates) ≡ true
unfolding dates_left
contains-dates_left initial cursor e [] h k = ground arith
contains-dates_left initial cursor e (d ∷ dates) h k = elim (Bool-cases (bytes_eq e d)) [
  | inl same ↦
      let kept = ap (already_synced initial cursor) (sym ((bytes_eq_iff e d).0 same)) in
      ground (arith, kept)
  | inr other ↦ ground (arith, contains-dates_left initial cursor e dates)
]

module _ (api : SteamApi) (env : Env) where
  -- The date was skipped on resuming, or the whole of an answer about it is stored.
  abbrev pub IsStored : Bytes → Bool → Bytes → ChangedDates → World api env → Type 0
  IsStored key initial cursor changed w =
      (e : Bytes)
      → contains e changed.dates ≡ true
      → (already_synced initial cursor e ≡ true) ⊎ IsAnswered api env key e w

  abbrev IfIdle : Type 0 → World api env → Type 0
  IfIdle P w = w.status.status ≡ idle → P

  HasFailed-IfIdle : {P : Type 0} (w : World api env) → HasFailed api env w → IfIdle P w
  HasFailed-IfIdle w (failed, last) h = absurd (ground (arith, ap is_failure h))

  abbrev IsAllAnswered : Bytes → List Bytes → Bool → World api env → Type 0
  IsAllAnswered key dates done w =
      (done ≡ true → (e : Bytes) → contains e dates ≡ true → IsAnswered api env key e w)
      × FailsOnFalse api env done w

  process_dates-IsAllAnswered :
      (key now : Bytes) (initial : Bool) (dates : List Bytes)
      → Ends (IsAllAnswered key dates) (process_dates api env key now initial dates)
  process_dates-IsAllAnswered key now initial dates = record {
    at = λ w. (
      λ done e listed. process_dates-stores api env key now initial dates w e done listed,
      (process_dates-FailsOnFalse api env key now initial dates).at w,
    );
  }

  IsAnswered-same :
      (key e : Bytes) (w w' : World api env)
      → committed_sales w'.db ≡ committed_sales w.db
      → IsAnswered api env key e w
      → IsAnswered api env key e w'
  IsAnswered-same key e w w' same (net, ok, dated) =
      (net, ok, ap (select (λ s. bytes_eq s.financial_date e)) same ∙ dated)

  end-IsStored :
      (key now : Bytes) (initial : Bool) (cursor : Bytes) (changed : ChangedDates)
      → (before : List ProductUnits) (done : Bool) (w : World api env)
      → IsAllAnswered key (dates_left initial cursor (sort_dates changed.dates)) done w
      → let after =
          ((if done then finish_changed api env changed now initial before else pure api env tt)
            w).1 in
        IfIdle (IsStored key initial cursor changed after) after
  unfolding pure
  end-IsStored key now initial cursor changed before true w (all, fails) = λ h e listed.
      elim (Bool-cases (already_synced initial cursor e)) [
        | inl skipped ↦ inl skipped
        | inr left ↦
            let same = (finish_changed-Takes api same_sales env changed now initial before).at w in
            let there = contains-sort_dates e changed.dates ∙ listed in
            inr (
              IsAnswered-same key e w (finish_changed api env changed now initial before w).1 same (
                all refl e
                  (contains-dates_left initial cursor e (sort_dates changed.dates) there left)))
      ]
  end-IsStored key now initial cursor changed before false w (all, fails) =
      HasFailed-IfIdle w (fails refl)

  process_left-IsStored :
      (key now : Bytes) (initial : Bool) (changed : ChangedDates) (cursor : Bytes)
      → Ends
          (λ _ w. IfIdle (IsStored key initial cursor changed w) w)
          (process_left api env key now initial changed cursor)
  unfolding process_left
  process_left-IsStored key now initial changed cursor = Ends-then _ _ (
      Ends-then _ _ (
        Ends-then _ _ (
          Ends-bind _ _ λ before.
            Ends-bind_from _ _ (process_dates-IsAllAnswered key now initial _)
              (end-IsStored key now initial cursor changed before))))

  process_changed-IsStored :
      (key now : Bytes) (initial : Bool) (changed : ChangedDates) (w : World api env)
      → let after = (process_changed api env key now initial changed w).1 in
        IfIdle (IsStored key initial (get_backfill_cursor w.db).0 changed after) after
  unfolding process_changed process_left ◌>>=◌ on_db pure already_synced
  process_changed-IsStored key now true changed w =
      (process_left-IsStored key now true changed _).at _
  process_changed-IsStored key now false changed w =
      (process_left-IsStored key now false changed []).at w

  branch-IsStored :
      (key now : Bytes) (initial : Bool) (changed : ChangedDates) (w : World api env)
      → (unchanged : Bool) → is_empty changed.dates ≡ unchanged
      → let after =
          ((if unchanged
              then finish_unchanged api env changed
              else process_changed api env key now initial changed)
            w).1 in
        IfIdle (IsStored key initial (get_backfill_cursor w.db).0 changed after) after
  branch-IsStored key now initial changed w true h =
      λ i e listed. absurd (no_dates e changed.dates h listed)
  branch-IsStored key now initial changed w false h =
      process_changed-IsStored key now initial changed w

  process_answer-IsStored :
      (key : Bytes) (initial : Bool) (changed : ChangedDates) (w : World api env)
      → let cursor = (get_backfill_cursor (set_last_successful_check_utc env.utc_now w.db).1).0 in
        let after = (process_answer api env key initial changed w).1 in
        IfIdle (IsStored key initial cursor changed after) after
  unfolding process_answer ◌>>◌ log on_db
  process_answer-IsStored key initial changed w =
      branch-IsStored key env.utc_now initial changed _ (is_empty changed.dates) refl

  answer-IsStored :
      (ok : Bool) (key : Bytes) (initial : Bool) (r : FinancialResult) (changed : ChangedDates)
      → (name : Wide) (w : World api env)
      → let cursor = (get_backfill_cursor (set_last_successful_check_utc env.utc_now w.db).1).0 in
        let after =
          ((if ok then process_answer api env key initial changed else fail_request api env name r)
            w).1 in
        IfIdle ((ok ≡ true) × IsStored key initial cursor changed after) after
  answer-IsStored true key initial r changed name w =
      λ h. (refl, process_answer-IsStored key initial changed w h)
  answer-IsStored false key initial r changed name w =
      HasFailed-IfIdle (fail_request api env name r w).1
        ((fail_request-HasFailed api env name r).at w)

  -- If a pass, from the reading of the high-water mark on, ends with the status Idle, then Steam
  -- answered the question for the changed dates since that mark with success, and of every date it
  -- named the whole aggregation of a successful answer is committed, unless the synchronisation is
  -- an initial one that is resumed and the date is not after its backfill cursor.
  pub synchronize-IsStored :
      (key : Bytes) (w : World api env)
      → let (hwm, c) = get_changed_dates_highwatermark w.db in
        let (r, changed, net) = api.get_changed_dates key hwm w.net in
        let cursor = (get_backfill_cursor (set_last_successful_check_utc env.utc_now c).1).0 in
        let after = (synchronize api env key w).1 in
        after.status.status ≡ idle
        → (is_ok r ≡ true) × IsStored key (is_initial hwm) cursor changed after
  unfolding synchronize ◌>>=◌ on_db request_changed_dates
  synchronize-IsStored key w =
      let (hwm, c) = get_changed_dates_highwatermark w.db in
      let (r, changed, net) = api.get_changed_dates key hwm w.net in
      answer-IsStored (is_ok r) key (is_initial hwm) r changed _ (record w { db = c; net = net })
