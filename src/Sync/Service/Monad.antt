-- ===== src/Sync/Service/Monad.antt =====
-- sync/SyncStatus.h, app/Messages.h and the state of one pass of the worker, with the small steps
-- that sync/SalesSyncService.cpp is made of: `SetStatus`, `Post` and the calls of the database.
use steam_sales_tray.Shared.{ℕ, Bool, true, false, List, [], ◌∷◌, ◌++◌, Option, if◌then◌else◌}
use steam_sales_tray.Shared.Bytes.{Bytes, Wide}
pub use steam_sales_tray.Platform.Logging.{LogLevel, info, warn, error}
use steam_sales_tray.Steam.Models.{ChangedDates, DetailedSalesRecord}
use steam_sales_tray.Steam.Client.{FinancialResult}
use steam_sales_tray.Storage.Models.{ProductUnits}
use steam_sales_tray.Storage.Connection.{Connection}

pub data SyncStatus : Type 0 where
  missing_api_key idle syncing offline authentication_failed api_error parse_error database_error :
      SyncStatus

pub record AppStatus : Type 0 where
  pub status : SyncStatus
  pub message : Wide
  pub last_attempt : ℕ
  pub last_success : ℕ
  pub completed_dates : ℕ
  pub total_dates : ℕ
  pub notification : Wide

-- WM_APP_SYNC_STARTED and the others
pub data Message : Type 0 where
  sync_started sync_progress sync_completed sync_failed totals_changed : Message

pub record LogEntry : Type 0 where
  pub level : LogLevel
  pub text : Wide

-- What the worker uses of the Steam client.
pub record SteamApi : Type 1 where
  pub Net : Type 0
  pub get_changed_dates : Bytes → Bytes → Net → FinancialResult × ChangedDates × Net
  pub get_all_sales_for_date :
      Bytes → Bytes → Net → FinancialResult × List DetailedSalesRecord × Net

-- What it uses of the key store: `Load` gives the key or fails.
pub record SecretStore : Type 0 where
  pub has_stored_key : Bool
  pub load : Option Bytes

-- What a pass reads of the settings, the clocks and Win32, all fixed during the pass. `hash_order` is
-- the order of a std::unordered_map.
pub record Env : Type 0 where
  pub secret : SecretStore
  pub notify_enabled : Bool
  pub utc_now : Bytes
  pub steam_today : Bytes
  pub system_clock : ℕ
  pub utf8_to_wide : Bytes → Wide
  pub wide_to_utf8 : Wide → Bytes
  pub hash_order : List ProductUnits → List ProductUnits

pub record State (Net : Type 0) : Type 0 where
  pub status : AppStatus
  pub clear_cache_requested : Bool
  pub posted : List Message
  pub logged : List LogEntry
  pub db : Connection
  pub net : Net

module _ (api : SteamApi) (env : Env) where
  abbrev pub World : Type 0
  World = State api.Net

  abbrev pub M : Type 0 → Type 0
  M A = World → A × World

  unfoldable pub pure : {A : Type 0} → A → M A
  pure a w = (a, w)

  unfoldable pub on_status : (AppStatus → AppStatus) → M (Unit {0})
  on_status f w = (tt, record w { status = f w.status })

  unfoldable pub set_status : SyncStatus → Wide → M (Unit {0})
  unfolding on_status
  set_status status message =
      on_status
        λ s. record s { status = status; message = message; last_attempt = env.system_clock }

  -- PostMessageW to the main window, oldest first
  unfoldable pub post : Message → M (Unit {0})
  post message w = (tt, record w { posted = w.posted ++ message ∷ [] })

  unfoldable pub log : LogLevel → Wide → M (Unit {0})
  log level text w =
      (tt, record w { logged = w.logged ++ record { level = level; text = text } ∷ [] })

  unfoldable pub on_db : {A : Type 0} → (Connection → A × Connection) → M A
  on_db f w = let (a, c) = f w.db in (a, record w { db = c })

infixl 5 ◌>>=◌ ◌>>◌
unfoldable pub ◌>>=◌ : {S A B : Type 0} → (S → A × S) → (A → S → B × S) → S → B × S
◌>>=◌ m f w = let (a, w') = m w in f a w'

unfoldable pub ◌>>◌ : {S A B : Type 0} → (S → A × S) → (S → B × S) → S → B × S
◌>>◌ m k w = k (m w).1

-- Whatever the state before, the result and the state after satisfy `Q`.
pub record Ends {S A : Type 0} (Q : A → S → Type 0) (m : S → A × S) : Type 0 where
  pub at : (w : S) → Q (m w).0 (m w).1

module _ {S A B : Type 0} {Q : B → S → Type 0} where
  pub Ends-bind : (m : S → A × S) (f : A → S → B × S) → ((a : A) → Ends Q (f a)) → Ends Q (m >>= f)
  unfolding ◌>>=◌
  Ends-bind m f k = record { at = λ w. (k (m w).0).at (m w).1 }

  pub Ends-then : (m : S → A × S) (k : S → B × S) → Ends Q k → Ends Q (m >> k)
  unfolding ◌>>◌
  Ends-then m k e = record { at = λ w. e.at (m w).1 }

  -- The end may rest on what the first step ends in.
  pub Ends-bind_from :
      {R : A → S → Type 0} (m : S → A × S) (f : A → S → B × S)
      → Ends R m
      → ((a : A) (w : S) → R a w → Q (f a w).0 (f a w).1)
      → Ends Q (m >>= f)
  unfolding ◌>>=◌
  Ends-bind_from m f e k = record { at = λ w. k (m w).0 (m w).1 (e.at w) }

module _ {S B : Type 0} {Q : B → S → Type 0} where
  pub Ends-if : (b : Bool) (m n : S → B × S) → Ends Q m → Ends Q n → Ends Q (if b then m else n)
  Ends-if true m n p q = p
  Ends-if false m n p q = q

pub ruleset ends_rules = (Ends-bind, Ends-then, Ends-if)
