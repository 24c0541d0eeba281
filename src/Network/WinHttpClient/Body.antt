-- ===== src/Network/WinHttpClient/Body.antt =====
-- The loop of network/WinHttpClient.cpp that reads a body: its end, its bound and what it gives.
use steam_sales_tray.Network.WinHttpClient.{
  WinHttp, ReadsAtMost, to_read, read_body, transport_failed, ReadRound, finished, again,
  read_round, after_query, after_read,
}
use mathlib.Core.List.{append-nil, append_assoc}
use steam_sales_tray.Shared.{
  ℕ, zero, suc, ◌+◌, ◌≤◌, ◌<◌, ◌≡◌, refl, sym, ap, subst, ◌∙◌, ◌⊎◌, inl, inr, true, false, Option,
  none, some, [], ◌∷◌, ◌++◌, length, length-append, ltb, arith, Bool-cases,
}
use steam_sales_tray.Shared.Bytes.{Bytes}
use steam_sales_tray.Steam.Client.{HttpResult}

-- What the system delivers on a request from a state on: the pieces up to the one that has no bytes
-- available or reads none, joined, and the state after them.
pub data IsDelivered (api : WinHttp) (h : api.Handle) : api.Sys → Bytes → api.Sys → Type 0 where
  ends : {s s1 : api.Sys} → api.query_data_available h s ≡ (some 0, s1) → IsDelivered api h s [] s1
  reads_none :
      {s s1 s2 : api.Sys} {n : ℕ}
      → api.query_data_available h s ≡ (some (suc n), s1)
      → api.read_data h (to_read (suc n)) s1 ≡ (some [], s2)
      → IsDelivered api h s [] s2
  piece :
      {s s1 s2 s3 : api.Sys} {n b : ℕ} {bs rest : Bytes}
      → api.query_data_available h s ≡ (some (suc n), s1)
      → api.read_data h (to_read (suc n)) s1 ≡ (some (b ∷ bs), s2)
      → IsDelivered api h s2 rest s3
      → IsDelivered api h s ((b ∷ bs) ++ rest) s3

-- A result that has no body: the transport failed, or the body was larger than its limit.
abbrev pub IsRefused : HttpResult → Type 0
IsRefused r = (r.body ≡ []) × ((r.transport_ok ≡ false) ⊎ (r.exceeded_limit ≡ true))

module _ (api : WinHttp) where
  open api use {Sys, Handle}

  -- A body that was read is the one so far with what was delivered, or else it is refused.
  abbrev pub IsReading : Handle → HttpResult → Sys → HttpResult → Sys → Type 0
  IsReading h r s r' s' =
      (IsRefused r')
      ⊎ ((b : Bytes) × IsDelivered api h s b s' × (r' ≡ record r { body = r.body ++ b }))

  -- One round: it ends as the loop should, or lengthens the body by a piece.
  abbrev pub IsReadRound : Handle → ℕ → HttpResult → Sys → ReadRound api → Type 0
  IsReadRound h max_bytes r s (finished r' s') =
      (length r'.body ≤ max_bytes) × IsReading h r s r' s'
  IsReadRound h max_bytes r s (again r' s') =
      (b : ℕ) × (bs : Bytes) × (r' ≡ record r { body = r.body ++ (b ∷ bs) })
      × (length r'.body ≤ max_bytes)
      × ((rest : Bytes) (s2 : Sys)
          → IsDelivered api h s' rest s2
          → IsDelivered api h s ((b ∷ bs) ++ rest) s2)

  after_read-IsReadRound :
      (h : Handle) (max_bytes n : ℕ) (r : HttpResult) (s s1 : Sys) (x : Option Bytes × Sys)
      → ReadsAtMost api
      → length r.body + to_read (suc n) ≤ max_bytes
      → api.query_data_available h s ≡ (some (suc n), s1)
      → api.read_data h (to_read (suc n)) s1 ≡ x
      → IsReadRound h max_bytes r s (after_read api r x)
  unfolding after_read transport_failed
  after_read-IsReadRound h max_bytes n r s s1 (none, s2) law bound q e =
      (omega arith, inl (refl, inl refl))
  after_read-IsReadRound h max_bytes n r s s1 (some [], s2) law bound q e = (
    omega arith,
    inr ([], reads_none q e, ap (λ b. record r { body = b }) (sym (append-nil r.body))),
  )
  after_read-IsReadRound h max_bytes n r s s1 (some (b ∷ bs), s2) law bound q e = (
    b,
    bs,
    refl,
    omega (
      arith,
      length-append r.body (b ∷ bs),
      law h (to_read (suc n)) s1 (b ∷ bs) (ap (λ p. p.0) e),
    ),
    λ rest s3 d. piece q e d,
  )

  after_query-IsReadRound :
      (h : Handle) (max_bytes : ℕ) (r : HttpResult) (s : Sys) (x : Option ℕ × Sys)
      → ReadsAtMost api
      → length r.body ≤ max_bytes
      → api.query_data_available h s ≡ x
      → IsReadRound h max_bytes r s (after_query api h max_bytes r x)
  unfolding after_query transport_failed
  after_query-IsReadRound h max_bytes r s (none, s1) law bound q =
      (omega arith, inl (refl, inl refl))
  after_query-IsReadRound h max_bytes r s (some zero, s1) law bound q =
      (bound, inr ([], ends q, ap (λ b. record r { body = b }) (sym (append-nil r.body))))
  after_query-IsReadRound h max_bytes r s (some (suc n), s1) law bound q =
      elim (Bool-cases (ltb max_bytes (length r.body + to_read (suc n)))) [
        | inl over ↦ rw over (omega arith, inl (refl, inr refl))
        | inr fits ↦
            rw fits (after_read-IsReadRound h max_bytes n r s s1 _ law (ground arith) q refl)
      ]

  read_round-IsReadRound :
      (h : Handle) (max_bytes : ℕ) (r : HttpResult) (s : Sys)
      → ReadsAtMost api
      → length r.body ≤ max_bytes
      → IsReadRound h max_bytes r s (read_round api h max_bytes r s)
  unfolding read_round
  read_round-IsReadRound h max_bytes r s law bound =
      after_query-IsReadRound h max_bytes r s (api.query_data_available h s) law bound refl

  ReadRound-cases :
      (x : ReadRound api)
      → ((r : HttpResult) × (s : Sys) × (x ≡ finished r s))
        ⊎ ((r : HttpResult) × (s : Sys) × (x ≡ again r s))
  ReadRound-cases (finished r s) = inl (r, s, refl)
  ReadRound-cases (again r s) = inr (r, s, refl)

  -- a piece in front of a reading
  IsReading-piece :
      (h : Handle) (b : Bytes) (r : HttpResult) (s s1 : Sys) (r' : HttpResult) (s' : Sys)
      → ((rest : Bytes) (s2 : Sys)
          → IsDelivered api h s1 rest s2
          → IsDelivered api h s (b ++ rest) s2)
      → IsReading h (record r { body = r.body ++ b }) s1 r' s'
      → IsReading h r s r' s'
  IsReading-piece h b r s s1 r' s' put (inl refused) = inl refused
  IsReading-piece h b r s s1 r' s' put (inr (rest, d, e)) =
      inr
        (b ++ rest, put rest s' d, e ∙ ap (λ x. record r { body = x }) (append_assoc r.body b rest))

  read_body-again :
      (fuel : ℕ) (h : Handle) (max_bytes : ℕ) (r : HttpResult) (s : Sys) (r1 : HttpResult)
      (s1 : Sys)
      → read_round api h max_bytes r s ≡ again r1 s1
      → read_body api (suc fuel) h max_bytes r s ≡ read_body api fuel h max_bytes r1 s1
  unfolding read_body
  read_body-again fuel h max_bytes r s r1 s1 e = rw (read_body, e) refl

  pub read_body-reads :
      (fuel : ℕ) (h : Handle) (max_bytes : ℕ) (r : HttpResult) (s : Sys)
      → ReadsAtMost api
      → length r.body ≤ max_bytes
      → max_bytes < fuel + length r.body
      → (r' : HttpResult) × (s' : Sys) × (read_body api fuel h max_bytes r s ≡ some (r', s'))
        × (length r'.body ≤ max_bytes)
        × IsReading h r s r' s'
  unfolding read_body
  read_body-reads zero h max_bytes r s law bound enough = absurd (omega arith)
  read_body-reads (suc fuel) h max_bytes r s law bound enough =
      elim (ReadRound-cases (read_round api h max_bytes r s)) [
        | inl (r1, s1, e) ↦
            let (short, reading) : IsReadRound h max_bytes r s (finished r1 s1) =
              subst (IsReadRound h max_bytes r s) e
                (read_round-IsReadRound h max_bytes r s law bound) in
            (r1, s1, rw (read_body, e) refl, short, reading)
        | inr (r1, s1, e) ↦
            let (b, bs, longer, short, put) : IsReadRound h max_bytes r s (again r1 s1) =
              subst (IsReadRound h max_bytes r s) e
                (read_round-IsReadRound h max_bytes r s law bound) in
            let (r2, s2, runs, fits, reading) =
              read_body-reads fuel h max_bytes r1 s1 law short
                (rw longer (omega (arith, length-append r.body (b ∷ bs)))) in
            (
              r2,
              s2,
              read_body-again fuel h max_bytes r s r1 s1 e ∙ runs,
              fits,
              IsReading-piece h (b ∷ bs) r s s1 r2 s2 put
                  (subst (λ x. IsReading h x s1 r2 s2) longer reading),
            )
      ]
