-- ===== src/Tests/Keeping.antt =====
-- Tests of the files that the program keeps, and of the key file.
use steam_sales_tray.Shared.{
  ◌≡◌, ◌≢◌, refl, sym, ◌∙◌, ℕ, true, Option, none, some, [], ◌∷◌, length, arith, if◌then◌else◌,
  Bool-cases, inl, inr,
}
use steam_sales_tray.Shared.Bytes.{Bytes, Wide, bytes_eq, bytes_eq_iff}
use steam_sales_tray.Platform.Files.{
  FileApi, FileLaws, and_then, write_all, delete_on_failure, write_file_atomic,
}
use steam_sales_tray.Platform.Files.Atomic.{IsWritten, write_file_atomic-IsWritten}
use steam_sales_tray.Security.Envelope.{envelope}
use steam_sales_tray.Security.DpapiSecretStore.{
  Dpapi, DpapiLaws, store, load, store_blob, store-IsStored, load-store, IsStored,
}

-- A disk that is a function from paths to contents.
abbrev put : Wide → Option Bytes → (Wide → Option Bytes) → Wide → Option Bytes
put path file disk other = if bytes_eq path other then file else disk other

abbrev size_of : Option Bytes → Option ℕ
size_of none = none
size_of (some file) = some (length file)

abbrev pub disk_files : FileApi
disk_files = record {
  Disk = Wide → Option Bytes;
  create_file = λ p d. (true, put p (some []) d);
  write_file = λ p b d. (true, length b, put p (some b) d);
  flush_file = λ p d. (true, d);
  move_file = λ p q d. (true, put q (d p) (put p none d));
  delete_file = λ p d. (true, put p none d);
  file_size = λ p d. size_of (d p);
  read_file = λ p n d. d p;
}

put-same : (p : Wide) (file : Option Bytes) (d : Wide → Option Bytes) → put p file d p ≡ file
put-same p file d = rw ((bytes_eq_iff p p).1 refl)

put-other :
    (p q : Wide) (file : Option Bytes) (d : Wide → Option Bytes) → q ≢ p → put p file d q ≡ d q
put-other p q file d apart = elim (Bool-cases (bytes_eq p q)) [
  | inl e ↦ absurd (apart (sym ((bytes_eq_iff p q).0 e)))
  | inr e ↦ rw e
]

pub disk_files-laws : FileLaws disk_files
disk_files-laws = record {
  contents = λ p d. d p;
  creates = λ p d h. put-same p (some []) d;
  create_keeps = λ p q d apart. put-other p q (some []) d apart;
  writes = λ p b d has h all. put-same p (some b) d;
  write_keeps = λ p q b d apart. put-other p q (some b) d apart;
  flush_keeps = λ p q d. refl;
  moves = λ p q b d has h. put-same q (d p) (put p none d) ∙ has;
  move_fails = λ p q r d h. ground arith;
  delete_keeps = λ p q d apart. put-other p q none d apart;
}

abbrev pub key_path : Wide
key_path = 107 ∷ []

abbrev pub old_key : Wide → Option Bytes
old_key path = some (1 ∷ 2 ∷ [])

-- A blob is the key with a byte in front.
abbrev pub marked : Dpapi
marked = record {
  protect = λ plain. some (0 ∷ plain);
  unprotect = λ blob. elim blob [ [] ↦ none | b ∷ plain ↦ some plain ];
}

marked-laws : DpapiLaws marked
marked-laws = record { unprotects = λ plain blob h. ground arith }

write_file_atomic-IsWritten_example :
    IsWritten disk_files disk_files-laws key_path
      (7 ∷ [])
      (disk_files-laws.contents key_path old_key)
      (write_file_atomic disk_files key_path (7 ∷ []) old_key)
write_file_atomic-IsWritten_example =
    write_file_atomic-IsWritten disk_files disk_files-laws key_path (7 ∷ []) old_key

store-IsStored_example :
    IsStored disk_files disk_files-laws marked key_path
      (65 ∷ [])
      old_key
      (store disk_files marked key_path (65 ∷ []) old_key)
store-IsStored_example = store-IsStored disk_files disk_files-laws marked key_path (65 ∷ []) old_key

store-works : (store disk_files marked key_path (65 ∷ []) old_key).0 ≡ true
unfolding store store_blob write_file_atomic and_then write_all delete_on_failure envelope
store-works = refl

reads :
    (path : Wide) (d : Wide → Option Bytes) (file : Bytes)
    → d path ≡ some file
    → (size_of (d path) ≡ some (length file)) × (d path ≡ some file)
reads path d file h = (rw h, h)

load-store_example :
    load disk_files marked key_path (store disk_files marked key_path (65 ∷ []) old_key).1
    ≡ some (65 ∷ [])
unfolding disk_files-laws store
load-store_example =
    load-store disk_files disk_files-laws marked marked-laws key_path (65 ∷ []) old_key store-works
      (reads key_path (store disk_files marked key_path (65 ∷ []) old_key).1)
