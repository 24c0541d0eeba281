-- ===== src/Tests/Syncing.antt =====
-- Tests of sync/.
use steam_sales_tray.Shared.{ℕ, refl, true, ◌≡◌, ◌≢◌, ◌%◌, ◌+◌, ◌*◌, ◌<◌, ◌≤◌, ◌⊎◌, arith, [], ◌∷◌}
use steam_sales_tray.Shared.Word.{word_mod}
use steam_sales_tray.Storage.SettingsStore.{RefreshInterval, minutes_of}
use steam_sales_tray.Sync.Aggregator.{aggregate_date}
use steam_sales_tray.Sync.Aggregator.Reference.{merge_all, aggregate_date-merge_all}
use steam_sales_tray.Sync.Aggregator.Totals.{
  net, counted_sum, row_sum, last_name, row_name, row_sum-aggregate_date, row_name-aggregate_date,
}
use steam_sales_tray.Storage.Connection.{failed}
use steam_sales_tray.Steam.Client.{is_ok}
use steam_sales_tray.Sync.Service.Monad.{syncing, idle}
use steam_sales_tray.Shared.Bytes.{Bytes, codes}
use steam_sales_tray.Sync.Service.Dates.{process_dates}
use steam_sales_tray.Sync.Service.{run_synchronization, synchronize}
use steam_sales_tray.Sync.Service.Success.{process_dates-succeeds}
use steam_sales_tray.Sync.Service.Mark.{mark, synchronize-mark}
use steam_sales_tray.Sync.Service.Settled.{IsSettled, run_synchronization-settles}
use steam_sales_tray.Sync.Worker.{Round, timed_out, run, compute_wait_ms, reset_deadline, infinite}
use steam_sales_tray.Sync.Worker.Waits.{run-IsAtRest, compute_wait_ms-reset_deadline}
use steam_sales_tray.Tests.Data.{
  monday, tuesday, noon, three_records, client, surroundings, at_start,
}

run_synchronization-settles_example :
    IsSettled client surroundings (run_synchronization client surroundings (at_start [])).1
run_synchronization-settles_example = run_synchronization-settles client surroundings (at_start [])

abbrev one_round : Round
one_round = record { wake = timed_out; env = surroundings; interval = 30; tick = 1000 }

run-IsAtRest_example :
    (run client
      (λ last. 400)
      one_round
      (one_round ∷ [])
      (at_start (failed ∷ []))).state.status.status
    ≢ syncing
run-IsAtRest_example =
    run-IsAtRest client (λ last. 400) one_round (one_round ∷ []) (at_start (failed ∷ []))

compute_wait_ms-reset_deadline_example :
    let wait =
      compute_wait_ms
        (minutes_of RefreshInterval.min15)
        2000
        (reset_deadline (minutes_of RefreshInterval.min15) 1000) in
    (wait < infinite)
    × ((2000 + wait ≡ 1000 + minutes_of RefreshInterval.min15 * 60000)
        ⊎ ((wait ≡ 0) × (1000 + minutes_of RefreshInterval.min15 * 60000 ≤ 2000)))
unfolding minutes_of
compute_wait_ms-reset_deadline_example =
    compute_wait_ms-reset_deadline RefreshInterval.min15 1000 2000 (omega arith) (omega arith)
      (omega arith)

aggregate_date-merge_all_example : aggregate_date three_records ≡ merge_all [] three_records
aggregate_date-merge_all_example = aggregate_date-merge_all three_records

row_sum-aggregate_date_example :
    row_sum net 7 (aggregate_date three_records) % word_mod
    ≡ counted_sum net 7 three_records % word_mod
row_sum-aggregate_date_example = row_sum-aggregate_date net 7 three_records

row_name-aggregate_date_example :
    row_name 7 (aggregate_date three_records) ≡ last_name [] 7 three_records
row_name-aggregate_date_example = row_name-aggregate_date 7 three_records

synchronize-mark_example :
    (mark client surroundings
        (synchronize client surroundings (codes "KEY") (at_start (failed ∷ []))).1
      ≡ mark client surroundings (at_start (failed ∷ [])))
    ⊎ ((synchronize client surroundings (codes "KEY") (at_start (failed ∷ []))).1.status.status
        ≡ idle)
synchronize-mark_example =
    synchronize-mark client surroundings (codes "KEY") (at_start (failed ∷ []))

client-answers :
    (date : Bytes) (session : ℕ)
    → is_ok (client.get_all_sales_for_date (codes "KEY") date session).0 ≡ true
unfolding is_ok
client-answers date session = refl

process_dates-succeeds_example :
    (process_dates client surroundings
      (codes "KEY")
      noon
      true
      (monday ∷ tuesday ∷ [])
      (at_start [])).0
    ≡ true
process_dates-succeeds_example =
    process_dates-succeeds client surroundings (codes "KEY") noon true client-answers
      (monday ∷ tuesday ∷ []) (at_start [])
      (record { sound = record { opened = refl; answers = refl }; idle = refl })
