-- ===== src/Tests/Storing.antt =====
-- Tests of storage/.
use steam_sales_tray.Shared.{
  ◌≡◌, ◌⊎◌, refl, ℕ, true, false, Option, none, some, List, [], ◌∷◌, if◌then◌else◌,
}
use steam_sales_tray.Shared.Bytes.{Bytes, bytes_eq, bytes_eq_iff}
use steam_sales_tray.Storage.Connection.{
  Connection, Outcome, done, failed, committed, ◌⊳◌, call, transaction, begin, or_rollback,
  statement, commit,
}
use steam_sales_tray.Storage.Database.{replace_date, clear_all_sales}
use steam_sales_tray.Storage.Database.Replace.{
  IsReplaced, replace_date-atomic, replace_date-succeeds,
}
use steam_sales_tray.Storage.Database.Clear.{IsCleared, clear_all_sales-atomic}
use steam_sales_tray.Storage.Migrations.{
  get_schema_version, prepare_version, apply_if, apply_migrations, schema_v2,
}
use steam_sales_tray.Storage.Migrations.Versions.{IsMigrated, apply_migrations-IsMigrated}
use steam_sales_tray.Storage.SettingsStore.{Registry, reg_dword}
use steam_sales_tray.Storage.SettingsStore.RoundTrip.{RegistryLaws}
use steam_sales_tray.Tests.Data.{tuesday, noon, game_row, connected, two_dates}

abbrev third_fails : List Outcome
third_fails = done ∷ done ∷ failed ∷ []

replace_date-atomic_example :
    (((replace_date tuesday (game_row ∷ []) noon (connected third_fails)).0 ≡ true)
      × ((connected third_fails).saved ≡ none)
      × ((replace_date tuesday (game_row ∷ []) noon (connected third_fails)).1.saved ≡ none)
      × IsReplaced tuesday
          (game_row ∷ [])
          (committed (connected third_fails))
          (committed (replace_date tuesday (game_row ∷ []) noon (connected third_fails)).1))
    ⊎ (((replace_date tuesday (game_row ∷ []) noon (connected third_fails)).0 ≡ false)
        × (committed (replace_date tuesday (game_row ∷ []) noon (connected third_fails)).1
            ≡ committed (connected third_fails)))
replace_date-atomic_example =
    replace_date-atomic tuesday (game_row ∷ []) noon (connected third_fails)

replace_date-succeeds_example : (replace_date tuesday (game_row ∷ []) noon (connected [])).0 ≡ true
replace_date-succeeds_example =
    replace_date-succeeds tuesday (game_row ∷ []) noon (connected [])
      (record { opened = refl; answers = refl }) refl (refl, tt)

clear_all_sales-atomic_example :
    (((clear_all_sales (connected [])).0 ≡ true)
      × IsCleared (committed (connected [])) (committed (clear_all_sales (connected [])).1))
    ⊎ (((clear_all_sales (connected [])).0 ≡ false)
        × (committed (clear_all_sales (connected [])).1 ≡ committed (connected [])))
clear_all_sales-atomic_example = clear_all_sales-atomic (connected [])

abbrev version_1 : Connection
version_1 = record (connected []) {
  tables = record two_dates { schema_version = some 1; has_cursor_column = false };
}

apply_migrations-IsMigrated_example :
    IsMigrated (committed version_1) (committed (apply_migrations version_1).1)
unfolding apply_migrations get_schema_version prepare_version apply_if ◌⊳◌ call transaction begin
    or_rollback statement schema_v2 commit
apply_migrations-IsMigrated_example = apply_migrations-IsMigrated version_1 refl refl

-- A registry that is a function from names to values.
abbrev pub registry : Registry
registry = record {
  Hive = Bytes → Option (ℕ × ℕ);
  opens = λ hive. true;
  query = λ name hive. hive name;
  create = λ hive. (true, hive);
  set =
      λ name value hive other. if bytes_eq name other then some (reg_dword, value) else hive other;
}

pub registry-laws : RegistryLaws registry
registry-laws = record {
  can_open = λ hive. refl;
  can_create = λ hive. refl;
  query_set = λ name value hive. rw ((bytes_eq_iff name name).1 refl);
  query_set_other = λ name other value hive h. rw h;
  query_create = λ name hive. refl;
}

abbrev pub bad_interval : Bytes → Option (ℕ × ℕ)
bad_interval name = some (reg_dword, 5)
