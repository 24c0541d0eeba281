-- ===== src/App/App/KeyTest.antt =====
-- The validator that OnSettings of app/App.cpp gives to the dialog.
use steam_sales_tray.Shared.{true, false, is_empty, if◌then◌else◌}
use steam_sales_tray.Shared.Bytes.{Bytes, codes}
use steam_sales_tray.Steam.Client.{FinancialResult, success, auth}
use steam_sales_tray.Sync.Service.Monad.{SteamApi}
use steam_sales_tray.Ui.Controls.{KeyTestResult}

-- the validator of OnSettings, on the result of GetChangedDates
unfoldable pub key_test_result : FinancialResult → KeyTestResult
key_test_result r = elim r.kind [
  | success ↦ record {
    ok = true;
    could_test = true;
    message = codes "Connection succeeded - the key is valid.";
  }
  | auth ↦ record { ok = false; could_test = true; message = r.message }
  | _ ↦ record {
    ok = false;
    could_test = false;
    message = if is_empty r.message then codes "Could not test the key right now." else r.message;
  }
]

-- its `GetChangedDates(keyUtf8, "0", dates)` with a client of its own
unfoldable pub validate_key : (api : SteamApi) → Bytes → api.Net → KeyTestResult × api.Net
unfolding key_test_result
validate_key api key net =
    let (r, dates, net') = api.get_changed_dates key (codes "0") net in (key_test_result r, net')
