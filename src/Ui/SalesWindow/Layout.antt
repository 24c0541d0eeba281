-- ===== src/Ui/SalesWindow/Layout.antt =====
-- LayoutChildren of ui/SalesWindow.cpp: where the controls stand in a client area of a size. An `int`
-- is a number below 2 ^ 32 in two's complement.
use steam_sales_tray.Shared.{
  ℕ, ◌+◌, ◌-◌, ◌*◌, ◌%◌, ◌^◌, ◌≤◌, ◌<◌, Bool, not, ◌&&◌, ltb, ◌==◌, if◌then◌else◌, arith,
}
use steam_sales_tray.Storage.SettingsStore.{Rect}

abbrev pub add32 : ℕ → ℕ → ℕ
add32 a b = (a + b) % 2 ^ 32

abbrev pub sub32 : ℕ → ℕ → ℕ
sub32 a b = (a + 2 ^ 32 - b) % 2 ^ 32

-- n > 0 of an `int`
abbrev pub is_positive32 : ℕ → Bool
is_positive32 n = not (n == 0) && ltb n (2 ^ 31)

abbrev pub margin : ℕ
margin = 10

abbrev pub button_width : ℕ
button_width = 82

abbrev pub button_height : ℕ
button_height = 26

abbrev pub combo_width : ℕ
combo_width = 150

abbrev pub row_top : ℕ
row_top = 40

pub record Layout : Type 0 where
  pub combo : Rect
  pub status : Rect
  pub refresh_button : Rect
  pub settings_button : Rect
  pub close_button : Rect
  pub total : Rect
  pub list : Rect

abbrev pub rect : ℕ → ℕ → ℕ → ℕ → Rect
rect x y w h = record { x = x; y = y; width = w; height = h }

unfoldable pub layout_children : ℕ → ℕ → Layout
layout_children w h =
    let buttons_y = sub32 (sub32 h margin) button_height in
    let close_x = sub32 (sub32 w margin) button_width in
    let settings_x = sub32 (sub32 close_x 6) button_width in
    let refresh_x = sub32 (sub32 settings_x 6) button_width in
    let status_x = margin + combo_width + 8 in
    let list_top = margin + row_top - 6 in
    let list_height = sub32 (sub32 buttons_y 8) list_top in
    record {
      combo = rect margin margin combo_width 220;
      status = rect status_x (margin + 3) (sub32 (sub32 w margin) status_x) 18;
      refresh_button = rect refresh_x buttons_y button_width button_height;
      settings_button = rect settings_x buttons_y button_width button_height;
      close_button = rect close_x buttons_y button_width button_height;
      total = rect margin (add32 buttons_y 5) (sub32 (sub32 refresh_x margin) 8) 18;
      list =
          rect margin list_top (sub32 w (2 * margin))
            (if is_positive32 list_height then list_height else 0);
    }

abbrev pub IsInside : ℕ → ℕ → Rect → Type 0
IsInside w h r = (r.x + r.width ≤ w) × (r.y + r.height ≤ h)

abbrev pub IsLeftOf : Rect → Rect → Type 0
IsLeftOf r s = r.x + r.width ≤ s.x

abbrev pub IsAbove : Rect → Rect → Type 0
IsAbove r s = r.y + r.height ≤ s.y

-- In a client area of at least 286 by 88 every control but the combo box, whose height is that of its
-- opened list, lies inside the area, and they do not overlap: the status line is right of the combo
-- box and above the list, the list above the buttons, and the total and the three buttons stand side
-- by side.
pub layout_children-IsInside :
    (w h : ℕ)
    → 286 ≤ w
    → w < 2 ^ 31
    → 88 ≤ h
    → h < 2 ^ 31
    → let l = layout_children w h in
      (IsInside w h l.status × IsInside w h l.list × IsInside w h l.total)
      × (IsInside w h l.refresh_button
          × IsInside w h l.settings_button
          × IsInside w h l.close_button)
      × (IsLeftOf l.combo l.status × IsAbove l.status l.list × IsAbove l.list l.refresh_button)
      × (IsLeftOf l.total l.refresh_button
          × IsLeftOf l.refresh_button l.settings_button
          × IsLeftOf l.settings_button l.close_button)
unfolding layout_children
layout_children-IsInside w h wide small high low = ground arith
