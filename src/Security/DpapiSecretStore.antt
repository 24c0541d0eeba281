-- ===== src/Security/DpapiSecretStore.antt =====
-- security/DpapiSecretStore.cpp: `Store`, `Load`, `HasStoredKey` and `Remove`. A SecureString is its
-- bytes. The calls of DPAPI, with the fixed entropy and description, are a parameter.
use steam_sales_tray.Shared.{
  ℕ, ◌<◌, ◌≤◌, ◌≡◌, refl, ◌⊎◌, inl, inr, Bool, true, false, ◌||◌, Option, none, some, length,
  is_empty, ltb, ◌==◌, if◌then◌else◌, arith, Option-cases, ◌+◌,
}
use steam_sales_tray.Shared.Bytes.{Bytes, Wide}
use steam_sales_tray.Platform.Files.{FileApi, FileLaws, write_file_atomic, read_whole_file}
use steam_sales_tray.Platform.Files.Atomic.{write_file_atomic-IsWritten, read_whole_file-some}
use steam_sales_tray.Security.Envelope.{
  header_size, max_blob_bytes, envelope, has_header, open_envelope, open_envelope-envelope,
  open_envelope-has_header, length-envelope,
}

pub record Dpapi : Type 0 where
  -- CryptProtectData and CryptUnprotectData
  pub protect : Bytes → Option Bytes
  pub unprotect : Bytes → Option Bytes

pub record DpapiLaws (dpapi : Dpapi) : Type 0 where
  pub unprotects :
      (plain blob : Bytes) → dpapi.protect plain ≡ some blob → dpapi.unprotect blob ≡ some plain

abbrev pub max_file_bytes : ℕ
max_file_bytes = header_size + max_blob_bytes

module _ (files : FileApi) (dpapi : Dpapi) where
  unfoldable pub store_blob : Wide → Bytes → files.Disk → Bool × files.Disk
  store_blob path blob d =
      if length blob == 0 || ltb max_blob_bytes (length blob)
      then (false, d)
      else write_file_atomic files path (envelope blob) d

  unfoldable pub store : Wide → Bytes → files.Disk → Bool × files.Disk
  store path plain d =
      if is_empty path || is_empty plain
      then (false, d)
      else elim (dpapi.protect plain) [ none ↦ (false, d) | some blob ↦ store_blob path blob d ]

  unfoldable pub unprotect_file : Bytes → Option Bytes
  unprotect_file file = elim (open_envelope file) [ none ↦ none | some blob ↦ dpapi.unprotect blob ]

  unfoldable pub load : Wide → files.Disk → Option Bytes
  load path d = if is_empty path then none else elim (read_whole_file files max_file_bytes path d) [
    | none ↦ none
    | some file ↦ unprotect_file file
  ]

  unfoldable pub has_stored_key : Wide → files.Disk → Bool
  has_stored_key path d =
      if is_empty path then false else elim (read_whole_file files max_file_bytes path d) [
        | none ↦ false
        | some file ↦ has_header file
      ]

  -- DeleteFileW, and whether GetLastError is ERROR_FILE_NOT_FOUND after it
  unfoldable pub remove : (files.Disk → Bool) → Wide → files.Disk → Bool × files.Disk
  remove not_found path d =
      if is_empty path
      then (false, d)
      else let (deleted, d') = files.delete_file path d in
        (if deleted then true else not_found d', d')

module _ (files : FileApi) (laws : FileLaws files) (dpapi : Dpapi) where
  -- What the file of the key is after Store.
  abbrev pub IsStored : Wide → Bytes → files.Disk → Bool × files.Disk → Type 0
  IsStored path plain d r =
      ((r.0 ≡ true)
        × ((blob : Bytes) × (dpapi.protect plain ≡ some blob)
            × (0 < length blob)
            × (length blob ≤ max_blob_bytes)
            × (laws.contents path r.1 ≡ some (envelope blob))))
      ⊎ ((r.0 ≡ false) × (laws.contents path r.1 ≡ laws.contents path d))

  checked-IsStored :
      (path : Wide) (plain blob : Bytes) (d : files.Disk) (rejected : Bool)
      → dpapi.protect plain ≡ some blob
      → (rejected ≡ false → (0 < length blob) × (length blob ≤ max_blob_bytes))
      → IsStored path plain d
          (if rejected then (false, d) else write_file_atomic files path (envelope blob) d)
  checked-IsStored path plain blob d true e h = inr (refl, refl)
  checked-IsStored path plain blob d false e h =
      elim (write_file_atomic-IsWritten files laws path (envelope blob) d) [
        | inl (worked, has) ↦ inl (worked, (blob, e, (h refl).0, (h refl).1, has))
        | inr same ↦ inr same
      ]

  store_blob-IsStored :
      (path : Wide) (plain blob : Bytes) (d : files.Disk)
      → dpapi.protect plain ≡ some blob
      → IsStored path plain d (store_blob files dpapi path blob d)
  unfolding store_blob
  store_blob-IsStored path plain blob d e = checked-IsStored path plain blob d _ e λ h. ground arith

  protected-IsStored :
      (path : Wide) (plain : Bytes) (d : files.Disk) (o : Option Bytes)
      → dpapi.protect plain ≡ o
      → IsStored path plain d
          (elim o [ none ↦ (false, d) | some blob ↦ store_blob files dpapi path blob d ])
  protected-IsStored path plain d none e = inr (refl, refl)
  protected-IsStored path plain d (some blob) e = store_blob-IsStored path plain blob d e

  keep-IsStored :
      (path : Wide) (plain : Bytes) (d : files.Disk) (rejected : Bool) (r : Bool × files.Disk)
      → IsStored path plain d r
      → IsStored path plain d (if rejected then (false, d) else r)
  keep-IsStored path plain d true r s = inr (refl, refl)
  keep-IsStored path plain d false r s = s

  -- Where the file calls follow their laws: Store either succeeds, and the file is the envelope
  -- of the blob that DPAPI made of the key, which is not empty and at most 1 MB, or it fails and
  -- the file is what it was before.
  pub store-IsStored :
      (path : Wide) (plain : Bytes) (d : files.Disk)
      → IsStored path plain d (store files dpapi path plain d)
  unfolding store
  store-IsStored path plain d =
      keep-IsStored path plain d _ _ (protected-IsStored path plain d (dpapi.protect plain) refl)

  store-is_empty :
      (path : Wide) (plain : Bytes) (d : files.Disk)
      → (store files dpapi path plain d).0 ≡ true
      → is_empty path ≡ false
  unfolding store
  store-is_empty path plain d h = ground arith

  load-some :
      (path : Wide) (file blob plain : Bytes) (d : files.Disk)
      → is_empty path ≡ false
      → read_whole_file files max_file_bytes path d ≡ some file
      → open_envelope file ≡ some blob
      → dpapi.unprotect blob ≡ some plain
      → load files dpapi path d ≡ some plain
  unfolding load unprotect_file
  load-some path file blob plain d named e opened f = ground arith

  -- Where the file calls and DPAPI follow their laws, after a Store that succeeded a Load whose
  -- reads succeed gives back the key.
  pub load-store :
      (protection : DpapiLaws dpapi) (path : Wide) (plain : Bytes) (d : files.Disk)
      → (store files dpapi path plain d).0 ≡ true
      → ((file : Bytes)
          → laws.contents path (store files dpapi path plain d).1 ≡ some file
          → (files.file_size path (store files dpapi path plain d).1 ≡ some (length file))
            × (files.read_file path (length file) (store files dpapi path plain d).1 ≡ some file))
      → load files dpapi path (store files dpapi path plain d).1 ≡ some plain
  load-store protection path plain d stored reads = elim (store-IsStored path plain d) [
    | inl (worked, (blob, e, some_bytes, bound, has)) ↦
        let (size, read) = reads (envelope blob) has in
        load-some path (envelope blob) blob plain _ (store-is_empty path plain d stored)
          (read_whole_file-some files max_file_bytes path (envelope blob) _ size read
            (omega (arith, length-envelope blob)) (omega (arith, length-envelope blob)))
          (open_envelope-envelope blob some_bytes bound) (protection.unprotects plain blob e)
    | inr (failed, same) ↦ ground arith
  ]

module _ (files : FileApi) (dpapi : Dpapi) where
  unprotect_file-has_header :
      (file plain : Bytes) → unprotect_file files dpapi file ≡ some plain → has_header file ≡ true
  unfolding unprotect_file
  unprotect_file-has_header file plain h = elim (Option-cases (open_envelope file)) [
    | inl e ↦ ground arith
    | inr (blob, e) ↦ (open_envelope-has_header file blob e).0
  ]

  -- Where Load gives a key, HasStoredKey says so.
  pub load-has_stored_key :
      (path : Wide) (d : files.Disk) (plain : Bytes)
      → load files dpapi path d ≡ some plain
      → has_stored_key files dpapi path d ≡ true
  unfolding load has_stored_key
  load-has_stored_key path d plain h =
      elim (Option-cases (read_whole_file files max_file_bytes path d)) [
        | inl e ↦ ground arith
        | inr (file, e) ↦ ground (arith, unprotect_file-has_header file plain)
      ]
