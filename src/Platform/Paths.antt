-- ===== src/Platform/Paths.antt =====
-- platform/Paths.cpp: the folder of the program's data and the files in it, and the path of the
-- executable, whose buffer is doubled until the path fits. The calls of Win32 are parameters.
use steam_sales_tray.Shared.{
  ℕ, zero, suc, ◌*◌, ◌≤◌, ◌<◌, ◌≡◌, refl, ap, inl, inr, Bool, Option, none, some, [], ◌++◌, ◌∷◌,
  length, take, Bool-cases, ltb→lt, is_empty, ltb, ◌==◌, if◌then◌else◌, arith,
}
use steam_sales_tray.Shared.Bytes.{Wide, codes}

pub record Folders : Type 0 where
  -- SHGetKnownFolderPath of FOLDERID_LocalAppData
  pub local_app_data : Option Wide
  -- CreateDirectoryW creates the folder, or ERROR_ALREADY_EXISTS is its error
  pub creates_directory : Wide → Bool

abbrev pub app_folder_name : Wide
app_folder_name = codes "SteamSalesTray"

unfoldable pub get_data_directory : Folders → Wide
get_data_directory f = elim f.local_app_data [
  | none ↦ []
  | some folder ↦
      let dir = folder ++ (codes "\\" ++ app_folder_name) in
      if f.creates_directory dir then dir else []
]

unfoldable pub join_data : Folders → Wide → Wide
unfolding get_data_directory
join_data f file_name =
    let dir = get_data_directory f in if is_empty dir then [] else dir ++ (codes "\\" ++ file_name)

unfoldable pub get_api_key_path : Folders → Wide
unfolding join_data
get_api_key_path f = join_data f (codes "api-key.dat")

unfoldable pub get_database_path : Folders → Wide
unfolding join_data
get_database_path f = join_data f (codes "sales.db")

unfoldable pub get_log_path : Folders → Wide
unfolding join_data
get_log_path f = join_data f (codes "app.log")

abbrev pub max_path : ℕ
max_path = 260

-- The loop of GetExecutablePath on fuel. `name` is GetModuleFileNameW: what it writes into a buffer
-- of a size; a path as long as the buffer was truncated.
unfoldable pub executable_path_from : ℕ → (ℕ → Wide) → ℕ → Option Wide
executable_path_from zero name size = none
executable_path_from (suc fuel) name size =
    let larger = executable_path_from fuel name (size * 2) in
    let path = name size in
    if length path == 0 then some [] else if ltb (length path) size then some path else larger

-- A path of Windows has at most 32767 characters, so 8 rounds from 260 on are enough.
unfoldable pub get_executable_path : (ℕ → Wide) → Option Wide
unfolding executable_path_from
get_executable_path name = executable_path_from 8 name max_path

take-all : (n : ℕ) (p : Wide) → length p ≤ n → take n p ≡ p
take-all zero [] h = refl
take-all zero (c ∷ p) h = absurd (omega arith)
take-all (suc n) [] h = refl
take-all (suc n) (c ∷ p) h = ap (λ x. c ∷ x) (take-all n p (omega arith))

length-take : (n : ℕ) (p : Wide) → n ≤ length p → length (take n p) ≡ n
length-take zero p h = refl
length-take (suc n) [] h = absurd (omega arith)
length-take (suc n) (c ∷ p) h = omega (arith, length-take n p (omega arith))

fits_at :
    (fuel size : ℕ) (path : Wide)
    → 0 < size
    → length path < size
    → executable_path_from (suc fuel) (λ n. take n path) size ≡ some path
unfolding executable_path_from
fits_at fuel size [] pos fits = rw (take-all size [] (omega arith)) refl
fits_at fuel size (c ∷ path) pos fits = ground (arith, take-all size (c ∷ path) (omega arith))

-- the size of the buffer after some rounds
abbrev room : ℕ → ℕ → ℕ
room zero size = size
room (suc fuel) size = room fuel (size * 2)

executable_path_from-finds :
    (fuel size : ℕ) (path : Wide)
    → 0 < size
    → length path < room fuel size
    → executable_path_from (suc fuel) (λ n. take n path) size ≡ some path
unfolding executable_path_from
executable_path_from-finds zero size path pos fits = fits_at zero size path pos (omega arith)
executable_path_from-finds (suc fuel) size path pos fits =
    elim (Bool-cases (ltb (length path) size)) [
      | inl e ↦ fits_at (suc fuel) size path pos (ltb→lt _ _ e)
      | inr e ↦ ground (
        arith,
        length-take size path (ground arith),
        executable_path_from-finds fuel (size * 2) path (omega arith) fits,
      )
    ]

-- GetExecutablePath ends with the whole path of the executable, for every path of Windows, which has
-- at most 32767 characters, where GetModuleFileNameW writes as much of it as the buffer holds.
pub get_executable_path-finds :
    (path : Wide) → length path ≤ 32767 → get_executable_path (λ n. take n path) ≡ some path
unfolding get_executable_path
get_executable_path-finds path h =
    executable_path_from-finds 7 max_path path (omega arith) (omega arith)
