-- ===== src/Platform/Files/Atomic.antt =====
-- WriteFileAtomic of security/DpapiSecretStore.cpp: the file has the new bytes, or it is as it was.
use steam_sales_tray.Shared.{
  ℕ, ◌<◌, ◌≤◌, ◌≡◌, ◌≢◌, refl, ap, ◌∙◌, subst, ◌⊎◌, inl, inr, Bool, true, false, ◌&&◌, Option, some,
  [], ◌∷◌, length, length-append, ==_iff, arith, Bool-cases,
}
use steam_sales_tray.Shared.Bytes.{Bytes, Wide, codes}
use steam_sales_tray.Platform.Files.{
  FileApi, FileLaws, and_then, write_all, delete_on_failure, temporary, write_file_atomic,
  read_whole_file,
}

path≢temporary : (path : Wide) → path ≢ temporary path
unfolding codes
path≢temporary path e =
    omega (arith, length-append path (codes ".tmp"), ap {A = Wide} (λ p. length p) e)

module _ (api : FileApi) (laws : FileLaws api) (path : Wide) (bytes : Bytes) where
  -- The target is untouched, and after a success the temporary file has the bytes.
  record IsStaged (old : Option Bytes) (r : Bool × api.Disk) : Type 0 where
    kept : laws.contents path r.1 ≡ old
    staged : r.0 ≡ true → laws.contents (temporary path) r.1 ≡ some bytes

  abbrev pub IsWritten : Option Bytes → Bool × api.Disk → Type 0
  IsWritten old r =
      ((r.0 ≡ true) × (laws.contents path r.1 ≡ some bytes))
      ⊎ ((r.0 ≡ false) × (laws.contents path r.1 ≡ old))

  and_flush-IsStaged :
      (old : Option Bytes) (r : Bool × api.Disk)
      → IsStaged old r
      → IsStaged old (and_then api r (api.flush_file (temporary path)))
  unfolding and_then
  and_flush-IsStaged old (true, d) s = record {
    kept = laws.flush_keeps _ path d ∙ s.kept;
    staged = λ h. laws.flush_keeps _ (temporary path) d ∙ s.staged refl;
  }
  and_flush-IsStaged old (false, d) s = s

  and_move-IsWritten :
      (old : Option Bytes) (r : Bool × api.Disk)
      → IsStaged old r
      → IsWritten old (and_then api r (api.move_file (temporary path) path))
  unfolding and_then
  and_move-IsWritten old (true, d) s = elim (Bool-cases (api.move_file (temporary path) path d).0) [
    | inl moved ↦ inl (moved, laws.moves _ path bytes d (s.staged refl) moved)
    | inr stuck ↦ inr (stuck, laws.move_fails _ path path d stuck ∙ s.kept)
  ]
  and_move-IsWritten old (false, d) s = inr (refl, s.kept)

  delete_on_failure-IsWritten :
      (old : Option Bytes) (r : Bool × api.Disk)
      → IsWritten old r
      → IsWritten old (delete_on_failure api (temporary path) r)
  unfolding delete_on_failure
  delete_on_failure-IsWritten old (true, d) w = w
  delete_on_failure-IsWritten old (false, d) (inl (worked, has)) = ground arith
  delete_on_failure-IsWritten old (false, d) (inr (failed, has)) =
      inr (refl, laws.delete_keeps _ path d (path≢temporary path) ∙ has)

and_both : (a b : Bool) → (a && b) ≡ true → (a ≡ true) × (b ≡ true)
and_both a b h = ground arith

module _ (api : FileApi) (laws : FileLaws api) (path : Wide) where
  write_all-IsStaged :
      (bytes : Bytes) (d : api.Disk)
      → laws.contents (temporary path) d ≡ some []
      → IsStaged api laws path bytes (laws.contents path d) (write_all api (temporary path) bytes d)
  unfolding write_all
  write_all-IsStaged [] d created = record { kept = refl; staged = λ h. created }
  write_all-IsStaged (b ∷ bytes) d created = record {
    kept = laws.write_keeps _ path _ d (path≢temporary path);
    staged = λ h.
        let (worked, all) = and_both _ _ h in
        laws.writes _ (b ∷ bytes) d created worked ((==_iff _ _).0 all);
  }

  was :
      (bytes : Bytes) (o old : Option Bytes) (r : Bool × api.Disk)
      → o ≡ old
      → IsWritten api laws path bytes o r
      → IsWritten api laws path bytes old r
  was bytes o old r e = subst (λ o. IsWritten api laws path bytes o r) e

  after_create-IsWritten :
      (bytes : Bytes) (old : Option Bytes) (r : Bool × api.Disk)
      → laws.contents path r.1 ≡ old
      → (r.0 ≡ true → laws.contents (temporary path) r.1 ≡ some [])
      → IsWritten api laws path bytes old (
          and_then api r λ d. delete_on_failure api (temporary path) (
            and_then api
              (and_then api
                (write_all api (temporary path) bytes d)
                (api.flush_file (temporary path)))
              (api.move_file (temporary path) path)))
  unfolding and_then
  after_create-IsWritten bytes old (true, d) kept created =
      let staged = write_all-IsStaged bytes d (created refl) in
      let flushed = and_flush-IsStaged api laws path bytes _ _ staged in
      let moved = and_move-IsWritten api laws path bytes _ _ flushed in
      was bytes _ _ _ kept (delete_on_failure-IsWritten api laws path bytes _ _ moved)
  after_create-IsWritten bytes old (false, d) kept created = inr (refl, kept)

  -- Where the file calls follow their laws, WriteFileAtomic either succeeds and the file has the
  -- bytes, or it fails and the file has what it had before, whichever of the calls fail.
  pub write_file_atomic-IsWritten :
      (bytes : Bytes) (d : api.Disk)
      → IsWritten api laws path bytes (laws.contents path d) (write_file_atomic api path bytes d)
  unfolding write_file_atomic
  write_file_atomic-IsWritten bytes d =
      after_create-IsWritten bytes _ _ (laws.create_keeps _ path d (path≢temporary path))
        (laws.creates _ d)

pub read_whole_file-some :
    (api : FileApi) (limit : ℕ) (path : Wide) (file : Bytes) (d : api.Disk)
    → api.file_size path d ≡ some (length file)
    → api.read_file path (length file) d ≡ some file
    → 0 < length file
    → length file ≤ limit
    → read_whole_file api limit path d ≡ some file
unfolding read_whole_file
read_whole_file-some api limit path file d size read some_bytes bound = ground arith
