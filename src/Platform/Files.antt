-- ===== src/Platform/Files.antt =====
-- The file functions of Win32 as a parameter of the parts that keep files: a disk of any type, and
-- one field for each call. The documented behaviour of the calls is in the laws.
pub mod Atomic
use steam_sales_tray.Shared.{
  ℕ, zero, ◌≡◌, ◌≢◌, Bool, true, false, ◌&&◌, ◌||◌, Option, none, some, List, [], ◌∷◌, ◌++◌, length,
  is_empty, ltb, ◌==◌, if◌then◌else◌,
}
use steam_sales_tray.Shared.Bytes.{Bytes, Wide, codes}

pub record FileApi : Type 1 where
  pub Disk : Type 0
  -- CreateFileW with CREATE_ALWAYS
  pub create_file : Wide → Disk → Bool × Disk
  -- WriteFile: whether it succeeded, and the number of bytes written
  pub write_file : Wide → Bytes → Disk → Bool × ℕ × Disk
  pub flush_file : Wide → Disk → Bool × Disk
  -- MoveFileExW with MOVEFILE_REPLACE_EXISTING
  pub move_file : Wide → Wide → Disk → Bool × Disk
  pub delete_file : Wide → Disk → Bool × Disk
  -- CreateFileW with OPEN_EXISTING and GetFileSizeEx
  pub file_size : Wide → Disk → Option ℕ
  -- ReadFile of so many bytes
  pub read_file : Wide → ℕ → Disk → Option Bytes

pub record FileLaws (api : FileApi) : Type 1 where
  pub contents : Wide → api.Disk → Option Bytes
  pub creates :
      (p : Wide) (d : api.Disk)
      → (api.create_file p d).0 ≡ true
      → contents p (api.create_file p d).1 ≡ some []
  pub create_keeps :
      (p q : Wide) (d : api.Disk) → q ≢ p → contents q (api.create_file p d).1 ≡ contents q d
  pub writes :
      (p : Wide) (b : Bytes) (d : api.Disk)
      → contents p d ≡ some []
      → (api.write_file p b d).0 ≡ true
      → (api.write_file p b d).1 ≡ length b
      → contents p (api.write_file p b d).2 ≡ some b
  pub write_keeps :
      (p q : Wide) (b : Bytes) (d : api.Disk)
      → q ≢ p
      → contents q (api.write_file p b d).2 ≡ contents q d
  pub flush_keeps : (p q : Wide) (d : api.Disk) → contents q (api.flush_file p d).1 ≡ contents q d
  pub moves :
      (p q : Wide) (b : Bytes) (d : api.Disk)
      → contents p d ≡ some b
      → (api.move_file p q d).0 ≡ true
      → contents q (api.move_file p q d).1 ≡ some b
  pub move_fails :
      (p q r : Wide) (d : api.Disk)
      → (api.move_file p q d).0 ≡ false
      → contents r (api.move_file p q d).1 ≡ contents r d
  pub delete_keeps :
      (p q : Wide) (d : api.Disk) → q ≢ p → contents q (api.delete_file p d).1 ≡ contents q d

abbrev pub temporary : Wide → Wide
temporary path = path ++ codes ".tmp"

module _ (api : FileApi) where
  unfoldable pub and_then : Bool × api.Disk → (api.Disk → Bool × api.Disk) → Bool × api.Disk
  and_then (true, d) f = f d
  and_then (false, d) f = (false, d)

  unfoldable pub write_all : Wide → Bytes → api.Disk → Bool × api.Disk
  write_all path bytes d =
      if is_empty bytes
      then (true, d)
      else let (ok, written, d') = api.write_file path bytes d in
        (ok && written == length bytes, d')

  unfoldable pub delete_on_failure : Wide → Bool × api.Disk → Bool × api.Disk
  delete_on_failure path (true, d) = (true, d)
  delete_on_failure path (false, d) = (false, (api.delete_file path d).1)

  unfoldable pub write_file_atomic : Wide → Bytes → api.Disk → Bool × api.Disk
  write_file_atomic path bytes d =
      let tmp = temporary path in
      and_then (api.create_file tmp d) λ d1.
        let written = write_all tmp bytes d1 in
        let flushed = and_then written (api.flush_file tmp) in
        let moved = and_then flushed (api.move_file tmp path) in delete_on_failure tmp moved

  -- `limit` is the size above which the file is not read.
  unfoldable pub read_whole_file : ℕ → Wide → api.Disk → Option Bytes
  read_whole_file limit path d = elim (api.file_size path d) [
    | none ↦ none
    | some size ↦ if size == 0 || ltb limit size then none else elim (api.read_file path size d) [
      | none ↦ none
      | some bytes ↦ if length bytes == size then some bytes else none
    ]
  ]
