-- ===== src/Tests/Starting.antt =====
-- Tests of app/SingleInstance.cpp and of the layout of ui/SalesWindow.cpp.
use steam_sales_tray.Shared.{
  ℕ, ◌≤◌, refl, Bool, true, false, ◌||◌, ◌&&◌, ◌==◌, ==_refl, none, some, List, [], ◌∷◌, arith,
}
use steam_sales_tray.Shared.Bytes.{Wide, codes, bytes_eq, bytes_eq_iff}
use steam_sales_tray.App.SingleInstance.{
  Token, Process, Mutexes, MutexLaws, start_all, primaries, primaries-start_all,
}
use steam_sales_tray.Ui.SalesWindow.Layout.{
  layout_children, IsInside, IsLeftOf, IsAbove, layout_children-IsInside,
}

-- a kernel that keeps the sessions and names of its mutexes
abbrev has_name : ℕ → Wide → List (ℕ × Wide) → Bool
has_name session name [] = false
has_name session name ((s, n) ∷ names) =
    (s == session && bytes_eq n name) || has_name session name names

abbrev kernel : Mutexes
kernel = record {
  Kernel = List (ℕ × Wide);
  create_mutex = λ session name names. (true, has_name session name names, (session, name) ∷ names);
}

kernel-laws : MutexLaws kernel
kernel-laws = record {
  exists = has_name;
  tells = λ session name k. refl;
  makes = λ session name k made. rw (==_refl, (bytes_eq_iff name name).1 refl) refl;
  keeps = λ session name elsewhere other k held. ground (arith, held);
}

abbrev user_token : Token
user_token = record {
  opens = true;
  size = 28;
  has_user = true;
  sid_string = some (codes "S-1-5-21");
}

abbrev user : Process
user = record { session = 1; token = user_token }

abbrev no_token : Token
no_token = record { opens = false; size = 0; has_user = false; sid_string = none }

-- a process of the session whose token cannot be opened
abbrev guest : Process
guest = record { session = 1; token = no_token }

primaries-start_all_example :
    primaries kernel 1 (codes "S-1-5-21") (start_all kernel (user ∷ guest ∷ user ∷ []) []) ≤ 1
primaries-start_all_example =
    primaries-start_all kernel kernel-laws 1 (codes "S-1-5-21") (user ∷ guest ∷ user ∷ []) []

layout_children-IsInside_example :
    let l = layout_children 464 341 in
    (IsInside 464 341 l.status × IsInside 464 341 l.list × IsInside 464 341 l.total)
    × (IsInside 464 341 l.refresh_button
        × IsInside 464 341 l.settings_button
        × IsInside 464 341 l.close_button)
    × (IsLeftOf l.combo l.status × IsAbove l.status l.list × IsAbove l.list l.refresh_button)
    × (IsLeftOf l.total l.refresh_button
        × IsLeftOf l.refresh_button l.settings_button
        × IsLeftOf l.settings_button l.close_button)
layout_children-IsInside_example =
    layout_children-IsInside 464 341 (omega arith) (omega arith) (omega arith) (omega arith)
