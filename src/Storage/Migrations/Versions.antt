-- ===== src/Storage/Migrations/Versions.antt =====
-- What the database is after its migrations: whichever calls of the engine fail.
use steam_sales_tray.Shared.{
  ℕ, ◌≤◌, ◌≡◌, refl, ap, sym, ◌∙◌, subst, ◌⊎◌, Bool, true, false, none, some, arith, ltb,
  if◌then◌else◌, inl, inr,
}
use steam_sales_tray.Storage.Connection.{
  Tables, Connection, committed, ◌⊳◌, call, Change, statement, transaction, restore,
}
use steam_sales_tray.Storage.Connection.Atomic.{
  Atomic, transaction-Atomic, statement-Performs, ⊳-works,
}
use steam_sales_tray.Storage.Migrations.{
  schema_v1, schema_v2, seed_cursor, version_of, apply_if, apply_migrations, get_schema_version,
  prepare_version,
}

-- What a database that was there already keeps.
pub record IsKept (t t' : Tables) : Type 0 where
  pub products : t'.products ≡ t.products
  pub sales : t'.daily_product_sales ≡ t.daily_product_sales
  pub mark : t'.sync_state.changed_dates_highwatermark ≡ t.sync_state.changed_dates_highwatermark

abbrev pub IsNewOrKept : Tables → Tables → Type 0
IsNewOrKept t t' = (t.schema_version ≡ none) ⊎ IsKept t t'

schema_v1-version :
    (t t' : Tables)
    → schema_v1 t ≡ some t'
    → (t.schema_version ≡ none) × (version_of t'.schema_version ≡ 1)
unfolding schema_v1 version_of
schema_v1-version t t' h = (ground arith, ground arith)

schema_v2-version :
    (t t' : Tables) → schema_v2 t ≡ some t' → IsKept t t' × (2 ≤ version_of t'.schema_version)
unfolding schema_v2 version_of seed_cursor
schema_v2-version t t' h =
    (record { products = ground arith; sales = ground arith; mark = ground arith }, ground arith)

get_schema_version-reads :
    (c : Connection)
    → c.saved ≡ none
    → let (v, c') = get_schema_version c in
      (c'.saved ≡ none)
      × (c'.tables ≡ c.tables)
      × ((v ≡ 0) ⊎ (v ≡ version_of c.tables.schema_version))
unfolding get_schema_version prepare_version ◌⊳◌ call restore version_of
get_schema_version-reads c s = (ground arith, ground arith, ground arith)

step-Atomic : (f : Change) → Atomic f (transaction (statement f))
step-Atomic f = transaction-Atomic (statement-Performs f)

-- A step that works, pending or not.
apply_if-works :
    (pending : Bool) (f : Change) (c : Connection)
    → (apply_if pending f c).0 ≡ true
    → ((pending ≡ true) × (f (committed c) ≡ some (committed (apply_if pending f c).1)))
      ⊎ ((pending ≡ false) × ((apply_if pending f c).1 ≡ c))
unfolding apply_if
apply_if-works true f c h = inl (refl, ((step-Atomic f).works c h).2)
apply_if-works false f c h = inr (refl, refl)

abbrev pub IsMigrated : Tables → Tables → Type 0
IsMigrated t t' = (2 ≤ version_of t'.schema_version) × IsNewOrKept t t'

IsKept-refl : (t : Tables) → IsKept t t
IsKept-refl t = record { products = refl; sales = refl; mark = refl }

-- The two steps on a database whose version was read, or read as 0.
two_steps-IsMigrated :
    (v : ℕ) (t t₁ t₂ : Tables)
    → (v ≡ 0) ⊎ (v ≡ version_of t.schema_version)
    → ((ltb v 1 ≡ true) × (schema_v1 t ≡ some t₁)) ⊎ ((ltb v 1 ≡ false) × (t₁ ≡ t))
    → ((ltb v 2 ≡ true) × (schema_v2 t₁ ≡ some t₂)) ⊎ ((ltb v 2 ≡ false) × (t₂ ≡ t₁))
    → IsMigrated t t₂
two_steps-IsMigrated v t t₁ t₂ read (inl (l, e)) (inl (l', e')) =
    ((schema_v2-version t₁ t₂ e').1, inl (schema_v1-version t t₁ e).0)
two_steps-IsMigrated v t t₁ t₂ read (inl (l, e)) (inr (l', e')) = ground arith
two_steps-IsMigrated v t t₁ t₂ read (inr (l, e)) (inl (l', e')) =
    let (kept, version) = schema_v2-version t t₂ (rw e at e') in (version, inr kept)
two_steps-IsMigrated v t t₁ t₂ read (inr (l, e)) (inr (l', e')) =
    subst (IsMigrated t) (sym (e' ∙ e)) (ground arith, inr (IsKept-refl t))

apply_if-step :
    (pending : Bool) (f : Change) (c : Connection)
    → (apply_if pending f c).0 ≡ true
    → ((pending ≡ true) × (f (committed c) ≡ some (committed (apply_if pending f c).1)))
      ⊎ ((pending ≡ false) × (committed (apply_if pending f c).1 ≡ committed c))
apply_if-step pending f c h = elim (apply_if-works pending f c h) [
  | inl e ↦ inl e
  | inr (skipped, e) ↦ inr (skipped, ap committed e)
]

two_steps-works :
    (v : ℕ) (c : Connection)
    → (v ≡ 0) ⊎ (v ≡ version_of (committed c).schema_version)
    → let r = (apply_if (ltb v 1) schema_v1 ⊳ apply_if (ltb v 2) schema_v2) c in
      r.0 ≡ true → IsMigrated (committed c) (committed r.1)
two_steps-works v c read h =
    let first = apply_if (ltb v 1) schema_v1 in
    let second = apply_if (ltb v 2) schema_v2 in
    let (m, e) = ⊳-works first second c h in
    let worked = sym (ap (λ (r : Bool × Connection). r.0) e) ∙ h in
    subst (λ (r : Bool × Connection). IsMigrated (committed c) (committed r.1)) (sym e)
      (two_steps-IsMigrated v (committed c) (committed (first c).1) _ read
        (apply_if-step (ltb v 1) schema_v1 c m)
        (apply_if-step (ltb v 2) schema_v2 (first c).1 worked))

committed-tables : (c : Connection) → c.saved ≡ none → committed c ≡ c.tables
unfolding committed
committed-tables c h = ground arith

if-true : (ok b : Bool) → (if ok then b else false) ≡ true → ok ≡ true
if-true ok b h = ground arith

-- A migration that works, begun with no transaction open, leaves a database of version 2 or later,
-- and a database that was there keeps its products, its sales and its high-water mark. This holds
-- whichever calls of the engine fail, also where the version could not be read.
pub apply_migrations-IsMigrated :
    (c : Connection)
    → c.saved ≡ none
    → (apply_migrations c).0 ≡ true
    → IsMigrated (committed c) (committed (apply_migrations c).1)
unfolding apply_migrations
apply_migrations-IsMigrated c s h =
    let (v, c') = get_schema_version c in
    let (s', t', read) = get_schema_version-reads c s in
    let same = committed-tables c' s' ∙ t' ∙ sym (committed-tables c s) in
    let here = committed-tables c' s' ∙ t' in
    subst (λ t. IsMigrated t (committed (apply_migrations c).1)) same
      (two_steps-works v c'
        (subst (λ (t : Tables). (v ≡ 0) ⊎ (v ≡ version_of t.schema_version)) (sym here) read)
        (if-true _ _ h))
