-- ===== src/Ui/SalesWindow/Periods.antt =====
-- The choice of a period in ui/SalesWindow.cpp, and what a window that is made later shows.
use steam_sales_tray.Ui.SalesWindow.{
  SalesPeriod, index_of, all_periods, find_period, or_first, period_at, current_period, SalesWindow,
  Surroundings, View, populate_period_combo, reload, handle_window_message, period_selected,
}
use steam_sales_tray.Storage.SettingsStore.{
  get_hide_lifetime, get_sales_period_index, set_sales_period_index,
}
use steam_sales_tray.Storage.SettingsStore.RoundTrip.{
  RegistryLaws, read_dword-write_dword, read_dword-write_dword_other,
}
use steam_sales_tray.Shared.{
  ℕ, zero, suc, ◌<◌, ◌≡◌, refl, ap, sym, subst, ◌∙◌, Bool, true, false, not, some, length, ◌==◌,
  arith,
}
use steam_sales_tray.Shared.Bytes.{codes, bytes_eq}

-- the period of a new window, from the two preferences it rests on
unfoldable picked : Bool → ℕ → SalesPeriod
picked hide saved = let ps = all_periods hide in period_at (or_first (find_period saved 0 ps)) ps

-- every period of the combo box is found again by its value
picked-index_of :
    (hide : Bool) (i : ℕ)
    → i < length (all_periods hide)
    → picked hide (index_of (period_at i (all_periods hide))) ≡ period_at i (all_periods hide)
unfolding picked period_at or_first find_period index_of all_periods
picked-index_of hide zero h = refl
picked-index_of hide (suc zero) h = refl
picked-index_of hide (suc (suc zero)) h = refl
picked-index_of hide (suc (suc (suc zero))) h = refl
picked-index_of true (suc (suc (suc (suc n)))) h = absurd (omega arith)
picked-index_of false (suc (suc (suc (suc zero)))) h = refl
picked-index_of false (suc (suc (suc (suc (suc n))))) h = absurd (omega arith)

module _ (env : Surroundings) (laws : RegistryLaws env.reg) where
  open env use {reg}

  get_sales_period_index-set :
      (n : ℕ) (hive : reg.Hive) → get_sales_period_index reg (set_sales_period_index reg n hive) ≡ n
  unfolding get_sales_period_index set_sales_period_index
  get_sales_period_index-set n hive = read_dword-write_dword reg laws _ n 0 hive

  get_hide_lifetime-set_sales_period_index :
      (n : ℕ) (hive : reg.Hive)
      → get_hide_lifetime reg (set_sales_period_index reg n hive) ≡ get_hide_lifetime reg hive
  unfolding get_hide_lifetime set_sales_period_index codes bytes_eq
  get_hide_lifetime-set_sales_period_index n hive =
      ap (λ v. not (v == 0)) (read_dword-write_dword_other reg laws _ _ n 0 hive refl)

  current_period-populate :
      (hive : reg.Hive) (later : SalesWindow)
      → current_period (populate_period_combo env hive later)
        ≡ picked (get_hide_lifetime reg hive) (get_sales_period_index reg hive)
  unfolding current_period populate_period_combo picked
  current_period-populate hive later = refl

  hive_selected :
      (i : ℕ) (v : View env)
      → (handle_window_message env (period_selected (some i)) v).hive
        ≡ set_sales_period_index reg (index_of (period_at i v.window.periods)) v.hive
  unfolding handle_window_message reload current_period
  hive_selected i v = refl

  -- In a registry where every reading and writing works (the laws), the period that the user selects
  -- among those of the combo box is the current one of a window that
  -- is filled later from the preferences, after a restart too, while Lifetime stays hidden or shown
  -- as it was.
  pub populate_period_combo-period_selected :
      (i : ℕ) (v : View env) (later : SalesWindow)
      → v.window.periods ≡ all_periods (get_hide_lifetime reg v.hive)
      → i < length v.window.periods
      → current_period (
          populate_period_combo env
            (handle_window_message env (period_selected (some i)) v).hive
            later)
        ≡ period_at i v.window.periods
  populate_period_combo-period_selected i v later same h =
      let hide = get_hide_lifetime reg v.hive in
      let n = index_of (period_at i v.window.periods) in
      ap (λ hive. current_period (populate_period_combo env hive later)) (hive_selected i v)
      ∙ current_period-populate (set_sales_period_index reg n v.hive) later
      ∙ ap (λ x. picked x (get_sales_period_index reg (set_sales_period_index reg n v.hive)))
          (get_hide_lifetime-set_sales_period_index n v.hive)
      ∙ ap (picked hide) (get_sales_period_index-set n v.hive)
      ∙ ap (λ ps. picked hide (index_of (period_at i ps))) same
      ∙ picked-index_of hide i (subst (λ ps. i < length ps) same h)
      ∙ ap (period_at i) (sym same)
