-- ===== src/Sync/Service/Clearing.antt =====
-- What a pass does that another thread asked to clear the cache.
use steam_sales_tray.Shared.{
  ◌≡◌, refl, ap, ◌∙◌, Bool, subst, sym, true, false, none, [], select, arith,
}
use steam_sales_tray.Shared.Bytes.{Bytes, bytes_eq, codes}
use steam_sales_tray.Storage.Connection.{
  Tables, Connection, committed, prepare, statement, call, apply_change, restore, ◌⊳◌,
}
use steam_sales_tray.Storage.Database.{
  zero_mark, read, or_zero_mark, clear_all_sales, get_changed_dates_highwatermark, column_text,
  get_backfill_cursor, set_last_successful_check_utc, set_sync_state_column,
}
use steam_sales_tray.Storage.Database.Clear.{clear_all_sales-Atomic, clear_change-IsCleared}
use steam_sales_tray.Sync.Cache.{cache_of}
use steam_sales_tray.Sync.Service.Monad.{
  SteamApi, Env, World, ◌>>=◌, ◌>>◌, set_status, on_status, post, on_db, pure, syncing,
  sync_started,
}
use steam_sales_tray.Sync.Service.{
  already_synced, ensure_open, usable_key, take_clear_request, clear_if_requested, with_key,
  run_synchronization,
}

-- A reading that fails gives the same where the column holds its fallback.
read_column :
    (v : Bytes) (column : Tables → Bytes) (c : Connection)
    → c.saved ≡ none
    → column c.tables ≡ v
    → (read v column c).0 ≡ v
unfolding read prepare call restore ◌⊳◌
read_column v column c s h = ground arith

committed-tables : (c : Connection) → c.saved ≡ none → committed c ≡ c.tables
unfolding committed
committed-tables c h = ground arith

-- After the clearing of the cache, the mark that is read is "0", also where the reading fails.
cleared-mark :
    (c : Connection)
    → (clear_all_sales c).0 ≡ true
    → (get_changed_dates_highwatermark (clear_all_sales c).1).0 ≡ zero_mark
unfolding get_changed_dates_highwatermark or_zero_mark codes
cleared-mark c done =
    let (before, after, changed) = clear_all_sales-Atomic.works c done in
    let d = (clear_all_sales c).1 in
    let cleared = clear_change-IsCleared _ _ changed in
    let mark =
      ap (λ (t : Tables). t.sync_state.changed_dates_highwatermark) (sym (committed-tables d after))
      ∙ cleared.mark in
    ap or_zero_mark
      (read_column zero_mark (λ t. t.sync_state.changed_dates_highwatermark) d after mark)

-- No transaction is open, and no backfill cursor is stored.
record HasNoCursor (c : Connection) : Type 0 where
  saved : c.saved ≡ none
  cursor : c.tables.sync_state.backfill_cursor ≡ none

get_changed_dates_highwatermark-HasNoCursor :
    (c : Connection) → HasNoCursor c → HasNoCursor (get_changed_dates_highwatermark c).1
unfolding get_changed_dates_highwatermark read prepare call restore ◌⊳◌
get_changed_dates_highwatermark-HasNoCursor c h = record {
  saved = ground (arith, h.saved);
  cursor = ground (arith, h.saved, h.cursor);
}

set_last_successful_check_utc-HasNoCursor :
    (now : Bytes) (c : Connection)
    → HasNoCursor c
    → HasNoCursor (set_last_successful_check_utc now c).1
unfolding set_last_successful_check_utc set_sync_state_column prepare statement call apply_change
    restore ◌⊳◌
set_last_successful_check_utc-HasNoCursor now c h = record {
  saved = ground (arith, h.saved);
  cursor = ground (arith, h.saved, h.cursor);
}

get_backfill_cursor-HasNoCursor : (c : Connection) → HasNoCursor c → (get_backfill_cursor c).0 ≡ []
unfolding get_backfill_cursor column_text
get_backfill_cursor-HasNoCursor c h =
    read_column [] (λ t. column_text t.sync_state.backfill_cursor) c h.saved
      (ap column_text h.cursor)

cleared-HasNoCursor :
    (c : Connection) → (clear_all_sales c).0 ≡ true → HasNoCursor (clear_all_sales c).1
cleared-HasNoCursor c done =
    let (before, after, changed) = clear_all_sales-Atomic.works c done in
    record {
      saved = after;
      cursor =
          ap (λ (t : Tables). t.sync_state.backfill_cursor) (sym (committed-tables _ after))
          ∙ (clear_change-IsCleared _ _ changed).cursor;
    }

nothing_skipped : (initial : Bool) (d : Bytes) → already_synced initial [] d ≡ false
unfolding already_synced
nothing_skipped initial d = ground arith

-- The cursor that a synchronisation reads, after the mark and the noting of the check.
abbrev cursor_read : Bytes → Connection → Bytes
cursor_read now c =
    (get_backfill_cursor
      (set_last_successful_check_utc now (get_changed_dates_highwatermark c).1).1).0

cleared-cursor :
    (now : Bytes) (c : Connection)
    → (clear_all_sales c).0 ≡ true
    → cursor_read now (clear_all_sales c).1 ≡ []
cleared-cursor now c done = get_backfill_cursor-HasNoCursor _ (
    set_last_successful_check_utc-HasNoCursor now _
      (get_changed_dates_highwatermark-HasNoCursor _ (cleared-HasNoCursor c done)))

module _ (api : SteamApi) (env : Env) where
  run_opened :
      (w : World api env)
      → (ensure_open w.db).0 ≡ true
      → w.clear_cache_requested ≡ true
      → (w₂ : World api env) × (w₂.clear_cache_requested ≡ false)
        × (w₂.db ≡ (clear_all_sales (ensure_open w.db).1).1)
        × (run_synchronization api env w ≡ with_key api env (usable_key env.secret) w₂)
  unfolding run_synchronization clear_if_requested take_clear_request post set_status on_status
      on_db pure ◌>>=◌ ◌>>◌
  run_opened w opened asked =
      let w₁ = (set_status api env syncing (codes "Updating…") (post api env sync_started w).1).1 in
      (
        record w₁ { db = (clear_all_sales (ensure_open w.db).1).1; clear_cache_requested = false },
        refl,
        refl,
        rw (opened, asked),
      )

  -- A pass with a request to clear the cache, whose opening and clearing work, takes the request
  -- and goes on, where a key is stored, as a first synchronisation of an empty cache: the mark that
  -- it reads and asks Steam with is "0", and the backfill cursor that it then reads is empty, so it
  -- skips no date. The last holds also where these readings fail.
  pub run_synchronization-clears :
      (w : World api env)
      → w.clear_cache_requested ≡ true
      → (ensure_open w.db).0 ≡ true
      → (clear_all_sales (ensure_open w.db).1).0 ≡ true
      → (w₂ : World api env) × (w₂.clear_cache_requested ≡ false)
        × ((e : Bytes) → cache_of w₂.db e ≡ [])
        × ((get_changed_dates_highwatermark w₂.db).0 ≡ zero_mark)
        × ((now : Bytes) → cursor_read now w₂.db ≡ [])
        × ((initial : Bool) (d : Bytes) → already_synced initial [] d ≡ false)
        × (run_synchronization api env w ≡ with_key api env (usable_key env.secret) w₂)
  run_synchronization-clears w asked opened cleared =
      let c = (ensure_open w.db).1 in
      let (w₂, taken, db, goes_on) = run_opened w opened asked in
      let changed = clear_change-IsCleared _ _ (clear_all_sales-Atomic.works c cleared).2 in
      (
        w₂,
        taken,
        λ e.
            subst (λ d. cache_of d e ≡ []) (sym db)
              (ap (select (λ s. bytes_eq s.financial_date e)) changed.sales),
        subst (λ d. (get_changed_dates_highwatermark d).0 ≡ zero_mark) (sym db)
            (cleared-mark c cleared),
        λ now. subst (λ d. cursor_read now d ≡ []) (sym db) (cleared-cursor now c cleared),
        nothing_skipped,
        goes_on,
      )
