-- ===== src/Storage/Connection/Atomic.antt =====
-- Transactions on a connection are atomic, whatever the engine answers.
use steam_sales_tray.Shared.{
  ◌≡◌, ◌⊎◌, sym, ap, ◌∙◌, Bool, true, false, none, some, arith, Bool-cases, inl, inr, Option-cases,
}
use steam_sales_tray.Storage.Connection.{
  Tables, Connection, committed, Op, prepare, Change, statement, begin, commit, rollback, ◌⊳◌,
  or_rollback, transaction, when_open,
}

-- An operation for the inside of a transaction: what is committed stays as it was, the transaction
-- stays open if the operation works, and then the tables change by `f`.
pub record Performs (f : Change) (m : Op) : Type 0 where
  pub stays :
      (c : Connection) (t : Tables) → c.saved ≡ some t → (m c).0 ≡ true → (m c).1.saved ≡ some t
  pub keeps : (c : Connection) (t : Tables) → c.saved ≡ some t → committed (m c).1 ≡ t
  pub effect : (c : Connection) → (m c).0 ≡ true → f c.tables ≡ some (m c).1.tables

-- One change after the other.
unfoldable pub then_change : Change → Change → Change
then_change f g t = elim (f t) [ none ↦ none | some t' ↦ g t' ]

pub then_change-eq-some :
    (f g : Change) (t t' : Tables)
    → then_change f g t ≡ some t'
    → (u : Tables) × (f t ≡ some u) × (g u ≡ some t')
unfolding then_change
then_change-eq-some f g t t' h = elim (Option-cases (f t)) [
  | inl e ↦ ground arith
  | inr (u, e) ↦ (u, e, ground arith)
]

pub then_change-step : (f g : Change) {t u : Tables} → f t ≡ some u → then_change f g t ≡ g u
unfolding then_change
then_change-step f g h = rw (h, then_change)

pub prepare-Performs : Performs some prepare
unfolding prepare committed
prepare-Performs = record {
  stays = λ c t s h. ground (arith);
  keeps = λ c t s. ground arith;
  effect = λ c h. ground arith;
}

pub statement-Performs : (f : Change) → Performs f (statement f)
unfolding statement committed
statement-Performs f = record {
  stays = λ c t s h. ground (arith);
  keeps = λ c t s. ground arith;
  effect = λ c h. ground arith;
}

pub ⊳-Performs :
    {f g : Change} {m k : Op} → Performs f m → Performs g k → Performs (then_change f g) (m ⊳ k)
unfolding ◌⊳◌ then_change
⊳-Performs {f} {g} {m} {k} p q = record {
  stays = λ c t s h. ground (arith, p.stays c t s, q.stays (m c).1 t);
  keeps = λ c t s. ground (arith, p.stays c t s, p.keeps c t s, q.keeps (m c).1 t);
  effect = λ c h. ground (arith, p.effect c, q.effect (m c).1);
}

begin-works :
    (c : Connection)
    → (begin c).0 ≡ true
    → (c.saved ≡ none) × ((begin c).1.saved ≡ some c.tables) × ((begin c).1.tables ≡ c.tables)
unfolding begin
begin-works c h = (ground arith, ground arith, ground arith)

begin-fails : (c : Connection) → (begin c).0 ≡ false → committed (begin c).1 ≡ committed c
unfolding begin committed
begin-fails c h = ground arith

commit-works :
    (c : Connection)
    → (commit c).0 ≡ true
    → ((commit c).1.saved ≡ none) × ((commit c).1.tables ≡ c.tables)
unfolding commit
commit-works c h = (ground arith, ground arith)

commit-fails : (c : Connection) → (commit c).0 ≡ false → committed (commit c).1 ≡ committed c
unfolding commit committed
commit-fails c h = ground arith

committed-rollback : (c : Connection) → committed (rollback c).1 ≡ committed c
unfolding rollback committed
committed-rollback c = ground arith

committed-open : (c : Connection) (t : Tables) → c.saved ≡ some t → committed c ≡ t
unfolding committed
committed-open c t h = ground arith

committed-closed : (c : Connection) → c.saved ≡ none → committed c ≡ c.tables
unfolding committed
committed-closed c h = ground arith

pub or_rollback-Performs : {f : Change} {m : Op} → Performs f m → Performs f (or_rollback m)
unfolding or_rollback
or_rollback-Performs {f} {m} p = record {
  stays = λ c t s h. ground (arith, p.stays c t s);
  keeps = λ c t s. ground (arith, p.keeps c t s, committed-rollback (m c).1);
  effect = λ c h. ground (arith, p.effect c);
}

pub ⊳-works :
    (m k : Op) (c : Connection) → ((m ⊳ k) c).0 ≡ true → ((m c).0 ≡ true) × ((m ⊳ k) c ≡ k (m c).1)
unfolding ◌⊳◌
⊳-works m k c h = (ground arith, ground arith)

⊳-fails :
    (m k : Op) (c : Connection)
    → (((m c).0 ≡ false) × ((m ⊳ k) c ≡ (false, (m c).1)))
      ⊎ (((m c).0 ≡ true) × ((m ⊳ k) c ≡ k (m c).1))
unfolding ◌⊳◌
⊳-fails m k c = elim (Bool-cases (m c).0) [ inl h ↦ inr (h, rw h) | inr h ↦ inl (h, rw h) ]

module _ {f : Change} {body : Op} (p : Performs f body) (c : Connection) where
  -- A transaction that works had none open before it, leaves none open, and commits its change.
  pub transaction-works :
      (transaction body c).0 ≡ true
      → (c.saved ≡ none)
        × ((transaction body c).1.saved ≡ none)
        × (f (committed c) ≡ some (committed (transaction body c).1))
  unfolding transaction
  transaction-works h =
      let q = or_rollback-Performs p in
      let (b, e) = ⊳-works begin (or_rollback body ⊳ commit) c h in
      let c₁ = (begin c).1 in
      let (m, e₁) =
        ⊳-works (or_rollback body) commit c₁ (sym (ap (λ (r : Bool × Connection). r.0) e) ∙ h) in
      let c₂ = (or_rollback body c₁).1 in
      let works = sym (ap (λ (r : Bool × Connection). r.0) (e ∙ e₁)) ∙ h in
      let (s, s₁, t) = begin-works c b in
      let (s₂, t₁) = commit-works c₂ works in
      rw (e, e₁)
        (s, s₂, cc (q.effect c₁ m, t, t₁, committed-closed (commit c₂).1 s₂, committed-closed c s))

  -- One that fails leaves what is committed as it was.
  pub transaction-fails :
      (transaction body c).0 ≡ false → committed (transaction body c).1 ≡ committed c
  unfolding transaction
  transaction-fails h =
      let q = or_rollback-Performs p in
      let c₁ = (begin c).1 in
      let c₂ = (or_rollback body c₁).1 in
      elim (⊳-fails begin (or_rollback body ⊳ commit) c) [
        | inl (b, e) ↦ rw e (begin-fails c b)
        | inr (b, e) ↦
            let (s, s₁, t) = begin-works c b in
            let kept = q.keeps c₁ c.tables s₁ ∙ sym (committed-closed c s) in
            elim (⊳-fails (or_rollback body) commit c₁) [
              | inl (m, e₁) ↦ rw (e, e₁) kept
              | inr (m, e₁) ↦
                  rw (e, e₁)
                    (commit-fails c₂ (sym (ap (λ (r : Bool × Connection). r.0) (e ∙ e₁)) ∙ h)
                      ∙ kept)
            ]
      ]

-- An operation that is one atomic change of what is committed.
pub record Atomic (f : Change) (op : Op) : Type 0 where
  pub works :
      (c : Connection)
      → (op c).0 ≡ true
      → (c.saved ≡ none) × ((op c).1.saved ≡ none) × (f (committed c) ≡ some (committed (op c).1))
  pub fails : (c : Connection) → (op c).0 ≡ false → committed (op c).1 ≡ committed c

when_open-cases :
    (op : Op) (c : Connection) → (when_open op c ≡ op c) ⊎ (when_open op c ≡ (false, c))
unfolding when_open
when_open-cases op c = ground arith

pub when_open-Atomic : {f : Change} {op : Op} → Atomic f op → Atomic f (when_open op)
when_open-Atomic {f} {op} p = record {
  works = λ c h. elim (when_open-cases op c) [
    | inl e ↦ rw e (p.works c (rw e at h))
    | inr e ↦ ground (arith)
  ];
  fails =
      λ c h. elim (when_open-cases op c) [ inl e ↦ rw e (p.fails c (rw e at h)) | inr e ↦ rw e ];
}

pub transaction-Atomic : {f : Change} {body : Op} → Performs f body → Atomic f (transaction body)
transaction-Atomic p = record { works = transaction-works p; fails = transaction-fails p }
