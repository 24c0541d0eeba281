-- ===== src/Storage/Connection/FaultFree.antt =====
-- With an engine that works, an operation fails only on a violated constraint.
use steam_sales_tray.Shared.{◌≡◌, ap, ◌∙◌, true, none, some, [], arith, Option-cases, inl, inr}
use steam_sales_tray.Storage.Connection.{
  Tables, Connection, Op, prepare, Change, statement, begin, commit, ◌⊳◌, or_rollback, transaction,
  when_open,
}
use steam_sales_tray.Storage.Connection.Atomic.{then_change}

-- An open connection to an engine that works.
pub record IsSound (c : Connection) : Type 0 where
  pub opened : c.is_open ≡ true
  pub answers : c.outcomes ≡ []

-- On a sound connection the operation does what the change says, and the connection stays sound.
pub record Achieves (f : Change) (m : Op) : Type 0 where
  pub sound : (c : Connection) → IsSound c → IsSound (m c).1
  pub stays : (c : Connection) (t : Tables) → IsSound c → c.saved ≡ some t → (m c).1.saved ≡ some t
  pub achieves :
      (c : Connection) (t : Tables)
      → IsSound c
      → f c.tables ≡ some t
      → ((m c).0 ≡ true) × ((m c).1.tables ≡ t)

pub prepare-Achieves : Achieves some prepare
unfolding prepare
prepare-Achieves = record {
  sound = λ c v. ground (arith);
  stays = λ c t v s. ground arith;
  achieves = λ c t v h. ground arith;
}

pub statement-Achieves : (f : Change) → Achieves f (statement f)
unfolding statement
statement-Achieves f = record {
  sound = λ c v. ground (arith);
  stays = λ c t v s. ground arith;
  achieves = λ c t v h. ground arith;
}

pub ⊳-Achieves :
    {f g : Change} {m k : Op} → Achieves f m → Achieves g k → Achieves (then_change f g) (m ⊳ k)
unfolding ◌⊳◌ then_change
⊳-Achieves {f} {g} {m} {k} p q = record {
  sound = λ c v. ground (arith, p.sound c v, q.sound (m c).1);
  stays = λ c t v s. ground (arith, p.sound c v, p.stays c t v s, q.stays (m c).1 t);
  achieves = λ c t v h. elim (Option-cases (f c.tables)) [
    | inl e ↦ ground arith
    | inr (t', e) ↦
        let (a, b) = p.achieves c t' v e in rw a (q.achieves (m c).1 t (p.sound c v) (ground arith))
  ];
}

begin-achieves :
    (c : Connection)
    → IsSound c
    → c.saved ≡ none
    → ((begin c).0 ≡ true)
      × IsSound (begin c).1
      × ((begin c).1.saved ≡ some c.tables)
      × ((begin c).1.tables ≡ c.tables)
unfolding begin
begin-achieves c v s = (ground arith, ground arith, ground arith, ground arith)

commit-achieves :
    (c : Connection) (t : Tables)
    → IsSound c
    → c.saved ≡ some t
    → ((commit c).0 ≡ true)
      × IsSound (commit c).1
      × ((commit c).1.saved ≡ none)
      × ((commit c).1.tables ≡ c.tables)
unfolding commit
commit-achieves c t v s = (ground arith, ground arith, ground arith, ground arith)

module _ {f : Change} {body : Op} (p : Achieves f body) (c : Connection) (v : IsSound c)
    (s : c.saved ≡ none) where
  -- A transaction on a sound connection with none open works where the change does.
  pub transaction-achieves :
      (t : Tables)
      → f c.tables ≡ some t
      → ((transaction body c).0 ≡ true)
        × IsSound (transaction body c).1
        × ((transaction body c).1.tables ≡ t)
        × ((transaction body c).1.saved ≡ none)
  unfolding transaction ◌⊳◌ or_rollback
  transaction-achieves t h =
      let c₁ = (begin c).1 in
      let c₂ = (body c₁).1 in
      let (b, v₁, s₁, t₁) = begin-achieves c v s in
      let (m, t₂) = p.achieves c₁ t v₁ (ap f t₁ ∙ h) in
      let (k, v₂, s₂, t₃) =
        commit-achieves c₂ c.tables (p.sound c₁ v₁) (p.stays c₁ c.tables v₁ s₁) in
      rw (b, m) (k, v₂, t₃ ∙ t₂, s₂)

pub when_open_sound : (op : Op) (c : Connection) → IsSound c → when_open op c ≡ op c
unfolding when_open
when_open_sound op c v = ground arith
