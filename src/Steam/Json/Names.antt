-- ===== src/Steam/Json/Names.antt =====
-- The names that a page gives its records: the app_info map against the array it is built from.
use steam_sales_tray.Shared.{
  ◌≡◌, refl, ◌∙◌, ap, Bool, not, ◌&&◌, Option, none, some, List, [], ◌∷◌, is_empty, ◌==◌,
  if◌then◌else◌, arith,
}
use steam_sales_tray.Shared.Bytes.{Bytes, codes}
use steam_sales_tray.Shared.Word.{Int64}
use steam_sales_tray.Steam.Json.{Yyjson, find_name, get_str_field, get_int64, add_name, app_names}

module _ (y : Yyjson) where
  open y use {Val, is_obj}

  -- An entry that gives the app a name.
  pub names_app : Int64 → Val → Bool
  names_app a entry =
      is_obj entry
      && not (get_int64 y entry (codes "appid") == 0)
      && not (is_empty (get_str_field y entry (codes "app_name")))
      && get_int64 y entry (codes "appid") == a

  -- The last such entry of the array; `name` if there is none.
  pub last_entry : Option Bytes → Int64 → List Val → Option Bytes
  last_entry name a [] = name
  last_entry name a (entry ∷ entries) =
      last_entry
        (if names_app a entry then some (get_str_field y entry (codes "app_name")) else name) a
        entries

  find_name-add_name :
      (a : Int64) (entry : Val) (names : List (Int64 × Bytes))
      → find_name a (add_name y entry names) ≡ (
          if names_app a entry
          then some (get_str_field y entry (codes "app_name"))
          else find_name a names)
  unfolding add_name find_name names_app
  find_name-add_name a entry names = ground arith

  find_name-app_names_from :
      (a : Int64) (entries : List Val) (names : List (Int64 × Bytes))
      → find_name a (app_names y entries names) ≡ last_entry (find_name a names) a entries
  unfolding app_names last_entry
  find_name-app_names_from a [] names = refl
  find_name-app_names_from a (entry ∷ entries) names =
      find_name-app_names_from a entries (add_name y entry names)
      ∙ ap (λ name. last_entry name a entries) (find_name-add_name a entry names)

  -- The name that the map finds for an app is that of the last entry of app_info that is an object
  -- with this appid, not 0, and a name that is not empty; without such an entry it finds none.
  pub find_name-app_names :
      (a : Int64) (entries : List Val)
      → find_name a (app_names y entries []) ≡ last_entry none a entries
  unfolding find_name
  find_name-app_names a entries = find_name-app_names_from a entries []
