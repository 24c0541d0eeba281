-- ===== src/Sync/Service/Takes.antt =====
-- Relations between the sales before and after a part of a pass: what a pass does beside the storing
-- of dates relates them wherever equal sales are related.
use steam_sales_tray.Shared.{ℕ, ◌≡◌, refl, ap, ◌∙◌, Bool, true, false, List, if◌then◌else◌}
use steam_sales_tray.Shared.Bytes.{Bytes, Wide}
use steam_sales_tray.Steam.Models.{ChangedDates}
use steam_sales_tray.Steam.Client.{FinancialResult}
use steam_sales_tray.Storage.Models.{ProductUnits}
use steam_sales_tray.Storage.Connection.{Connection}
use steam_sales_tray.Storage.Database.Sales.{
  KeepsSales, sales_kept, get_backfill_cursor-KeepsSales, set_last_successful_check_utc-KeepsSales,
  get_changed_dates_highwatermark-KeepsSales,
}
use steam_sales_tray.Storage.Migrations.Sales.{committed_sales}
use steam_sales_tray.Sync.Service.Monad.{
  Message, SyncStatus, AppStatus, LogLevel, ◌>>=◌, ◌>>◌, SteamApi, Env, State, set_status,
  on_status, post, log, on_db, pure,
}
use steam_sales_tray.Sync.Service.Dates.{fail_request, checkpoint}
use steam_sales_tray.Sync.Service.{
  fail_pass, take_clear_request, request_changed_dates, advance_mark, finish_unchanged, snapshot,
  notification_text, announce, finish_changed, log_resumed,
}

-- A relation of connections that holds where the sales are the same, and that composes.
pub record Relation : Type 1 where
  pub Related : Connection → Connection → Type 0
  pub same : (c d : Connection) → committed_sales d ≡ committed_sales c → Related c d
  pub trans : {a b c : Connection} → Related a b → Related b c → Related a c

abbrev pub same_sales : Relation
same_sales = record {
  Related = λ c d. committed_sales d ≡ committed_sales c;
  same = λ c d h. h;
  trans = λ p q. q ∙ p;
}

module _ (api : SteamApi) (r : Relation) where
  pub record Takes {A : Type 0} (m : State api.Net → A × State api.Net) : Type 0 where
    pub at : (w : State api.Net) → r.Related w.db (m w).1.db

  module _ {A B : Type 0} where
    pub Takes-bind :
        (m : State api.Net → A × State api.Net) (f : A → State api.Net → B × State api.Net)
        → Takes m
        → ((a : A) → Takes (f a))
        → Takes (m >>= f)
    unfolding ◌>>=◌
    Takes-bind m f p q = record { at = λ w. r.trans (p.at w) ((q (m w).0).at (m w).1) }

    pub Takes-then :
        (m : State api.Net → A × State api.Net) (k : State api.Net → B × State api.Net)
        → Takes m
        → Takes k
        → Takes (m >> k)
    unfolding ◌>>◌
    Takes-then m k p q = record { at = λ w. r.trans (p.at w) (q.at (m w).1) }

  module _ {A : Type 0} where
    pub Takes-if :
        (b : Bool) (m n : State api.Net → A × State api.Net)
        → Takes m
        → Takes n
        → Takes (if b then m else n)
    Takes-if true m n p q = p
    Takes-if false m n p q = q

    idle_step-Takes :
        (m : State api.Net → A × State api.Net)
        → ((w : State api.Net) → (m w).1.db ≡ w.db)
        → Takes m
    idle_step-Takes m h = record { at = λ w. r.same w.db (m w).1.db (ap committed_sales (h w)) }

  module _ (env : Env) where
    pub pure-Takes : {A : Type 0} (a : A) → Takes (pure api env a)
    unfolding pure
    pure-Takes a = idle_step-Takes _ (λ w. refl)

    pub on_status-Takes : (f : AppStatus → AppStatus) → Takes (on_status api env f)
    unfolding on_status
    on_status-Takes f = idle_step-Takes _ (λ w. refl)

    pub set_status-Takes : (s : SyncStatus) (message : Wide) → Takes (set_status api env s message)
    unfolding set_status on_status
    set_status-Takes s message = idle_step-Takes _ (λ w. refl)

    pub post-Takes : (message : Message) → Takes (post api env message)
    unfolding post
    post-Takes message = idle_step-Takes _ (λ w. refl)

    pub log-Takes : (level : LogLevel) (text : Wide) → Takes (log api env level text)
    unfolding log
    log-Takes level text = idle_step-Takes _ (λ w. refl)

    pub take_clear_request-Takes : Takes (take_clear_request api env)
    unfolding take_clear_request
    take_clear_request-Takes = idle_step-Takes _ (λ w. refl)

    pub request_changed_dates-Takes :
        (key hwm : Bytes) → Takes (request_changed_dates api env key hwm)
    unfolding request_changed_dates
    request_changed_dates-Takes key hwm = idle_step-Takes _ (λ w. refl)

    pub on_db-Takes :
        {A : Type 0} (f : Connection → A × Connection) → KeepsSales f → Takes (on_db api env f)
    unfolding on_db
    on_db-Takes f k = record { at = λ w. r.same w.db (f w.db).1 (k.at w.db) }

    pub ruleset takes_rules = (
      sales_kept, Takes-bind, Takes-then, Takes-if, pure-Takes, on_status-Takes, set_status-Takes,
      post-Takes, log-Takes, on_db-Takes, take_clear_request-Takes, request_changed_dates-Takes,
    )

    pub snapshot-Takes : (wanted : Bool) → Takes (snapshot api env wanted)
    unfolding snapshot
    snapshot-Takes wanted = search takes_rules depth 20

    pub notification_text-Takes :
        (wanted : Bool) (before : List ProductUnits)
        → Takes (notification_text api env wanted before)
    unfolding notification_text
    notification_text-Takes wanted before = search (takes_rules, snapshot-Takes) depth 20

    pub advance_mark-Takes : (mark : Bytes) → Takes (advance_mark api env mark)
    unfolding advance_mark
    advance_mark-Takes mark = search takes_rules depth 20

    pub checkpoint-Takes : (initial : Bool) (date : Bytes) → Takes (checkpoint api env initial date)
    unfolding checkpoint
    checkpoint-Takes initial date = search takes_rules depth 20

    pub finish_unchanged-Takes : (changed : ChangedDates) → Takes (finish_unchanged api env changed)
    unfolding finish_unchanged
    finish_unchanged-Takes changed = search (takes_rules, advance_mark-Takes) depth 20

    pub announce-Takes : (text : Wide) → Takes (announce api env text)
    unfolding announce
    announce-Takes text = search takes_rules depth 20

    pub finish_changed-Takes :
        (changed : ChangedDates) (now : Bytes) (initial : Bool) (before : List ProductUnits)
        → Takes (finish_changed api env changed now initial before)
    unfolding finish_changed
    finish_changed-Takes changed now initial before =
        search
          (
            takes_rules, advance_mark-Takes, checkpoint-Takes, notification_text-Takes,
            announce-Takes,
          )
          depth 24

    pub fail_request-Takes :
        (name : Wide) (r : FinancialResult) → Takes (fail_request api env name r)
    unfolding fail_request
    fail_request-Takes name r = search takes_rules depth 20

    pub fail_pass-Takes : (s : SyncStatus) (message : Wide) → Takes (fail_pass api env s message)
    unfolding fail_pass
    fail_pass-Takes s message = search takes_rules depth 20

    pub log_resumed-Takes :
        (initial : Bool) (all left : ℕ) → Takes (log_resumed api env initial all left)
    unfolding log_resumed
    log_resumed-Takes initial all left = search takes_rules depth 20
