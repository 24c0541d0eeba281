-- ===== src/Sync/Service/Sales.antt =====
-- What a pass leaves in the cache: each date is as it was, or the whole of an answer is stored.
pub mod Round
use steam_sales_tray.Shared.{
  ◌≡◌, refl, sym, ap, ◌∙◌, subst, ◌⊎◌, inl, inr, Bool, true, false, not, ◌||◌, List, [], ◌∷◌, map,
  select, if◌then◌else◌, Bool-cases, arith,
}
use steam_sales_tray.Shared.Bytes.{Bytes, Wide, bytes_eq, bytes_eq_iff}
use steam_sales_tray.Steam.Models.{DetailedSalesRecord}
use steam_sales_tray.Steam.Client.{FinancialResult, is_ok}
use steam_sales_tray.Storage.Connection.{Tables, DailyProductSale, committed}
use steam_sales_tray.Storage.Database.{sale_of, replace_date}
use steam_sales_tray.Storage.Database.Replace.{IsReplaced, replace_date-atomic}
use steam_sales_tray.Storage.Database.Views.{
  set_last_error-KeepsView, set_backfill_cursor-KeepsView,
}
use steam_sales_tray.Sync.Aggregator.{aggregate_date}
use steam_sales_tray.Sync.Service.Monad.{
  SteamApi, Env, World, M, ◌>>=◌, ◌>>◌, set_status, on_status, post, log, on_db, pure,
}
use steam_sales_tray.Sync.Service.Dates.{
  fail_request, request_sales, checkpoint, after_store, store_date, process_date, process_dates,
}
use steam_sales_tray.Sync.Service.Sales.Round.{
  sales_on, sales_at, IsRound, IsUntouched, process_date-IsRound,
}

abbrev pub contains : Bytes → List Bytes → Bool
contains e [] = false
contains e (d ∷ dates) = bytes_eq e d || contains e dates

module _ (api : SteamApi) (env : Env) where
  -- The cache has for a date the whole of an answer of Steam about it.
  abbrev pub IsAnswered : Bytes → Bytes → World api env → Type 0
  IsAnswered key date w =
      (net : api.Net) × (is_ok (api.get_all_sales_for_date key date net).0 ≡ true)
      × (sales_at api env date w
          ≡ map (sale_of date) (aggregate_date (api.get_all_sales_for_date key date net).1))

  abbrev IsLeft : Bytes → List Bytes → World api env → Bool × World api env → Type 0
  IsLeft e dates w r =
      (sales_at api env e r.1 ≡ sales_at api env e w) × ((r.0 ≡ false) ⊎ (contains e dates ≡ false))

  -- A date that was replaced, and that the rest of the dates left as it was.
  round-IsAnswered :
      (key date e : Bytes) (dates : List Bytes) (w w₁ : World api env) (r : Bool × World api env)
      → is_ok (api.get_all_sales_for_date key date w.net).0 ≡ true
      → sales_at api env date w₁
        ≡ map (sale_of date) (aggregate_date (api.get_all_sales_for_date key date w.net).1)
      → ((e : Bytes) → bytes_eq e date ≡ false → sales_at api env e w₁ ≡ sales_at api env e w)
      → IsLeft e dates w₁ r
      → IsAnswered key e r.1 ⊎ IsLeft e (date ∷ dates) w r
  round-IsAnswered key date e dates w w₁ r ok dated others (same, rest) =
      elim (Bool-cases (bytes_eq e date)) [
        | inl h ↦
            let named = (bytes_eq_iff e date).0 h in
            inl (
              subst (λ d. sales_at api env d r.1 ≡ sales_at api env d w₁ → IsAnswered key d r.1)
                (sym named) (λ kept. (w.net, ok, kept ∙ dated)) same)
        | inr apart ↦ inr (same ∙ others e apart, ground (arith))
      ]

  choose :
      (P : Bool × World api env → Type 0) (done : Bool) (rest : M api env Bool) (w : World api env)
      → (done ≡ true → P (rest w))
      → (done ≡ false → P (false, w))
      → P ((if done then rest else pure api env false) w)
  unfolding pure
  choose P true rest w more end = more refl
  choose P false rest w more end = end refl

  -- The loop goes on after a date that was stored, and ends after one that was not.
  loop :
      (P : Bool × World api env → Type 0) (first rest : M api env Bool) (w : World api env)
      → ((first w).0 ≡ true → P (rest (first w).1))
      → ((first w).0 ≡ false → P (false, (first w).1))
      → P ((first >>= λ done. if done then rest else pure api env false) w)
  unfolding ◌>>=◌
  loop P first rest w more end = choose P (first w).0 rest (first w).1 more end

  after_round-IsAnswered :
      (key date e : Bytes) (dates : List Bytes) (w : World api env) (after : Bool × World api env)
      → (rest : M api env Bool)
      → let reply = api.get_all_sales_for_date key date w.net in
        ((is_ok reply.0 ≡ true) × IsRound api env date reply.1 w after)
          ⊎ IsUntouched api env w after
        → IsAnswered key e (rest after.1).1 ⊎ IsLeft e dates after.1 (rest after.1)
        → after.0 ≡ true
        → IsAnswered key e (rest after.1).1 ⊎ IsLeft e (date ∷ dates) w (rest after.1)
  after_round-IsAnswered key date e dates w after rest (inl (ok, inl (t, dated, others))) (inl done)
        h =
      inl done
  after_round-IsAnswered key date e dates w after rest (inl (ok, inl (t, dated, others))) (inr left)
        h =
      round-IsAnswered key date e dates w after.1 (rest after.1) ok dated others left
  after_round-IsAnswered key date e dates w after rest (inl (ok, inr (f, same))) r h = ground arith
  after_round-IsAnswered key date e dates w after rest (inr (f, same)) r h = ground arith

  stopped-IsAnswered :
      (key date e : Bytes) (dates : List Bytes) (w : World api env) (after : Bool × World api env)
      → let reply = api.get_all_sales_for_date key date w.net in
        ((is_ok reply.0 ≡ true) × IsRound api env date reply.1 w after)
          ⊎ IsUntouched api env w after
        → after.0 ≡ false
        → IsAnswered key e after.1 ⊎ IsLeft e (date ∷ dates) w (false, after.1)
  stopped-IsAnswered key date e dates w after (inl (ok, inl (t, dated, others))) h = ground arith
  stopped-IsAnswered key date e dates w after (inl (ok, inr (f, same))) h = inr (same e, inl refl)
  stopped-IsAnswered key date e dates w after (inr (f, same)) h = inr (same e, inl refl)

  process_dates-IsAnswered :
      (key now : Bytes) (initial : Bool) (dates : List Bytes) (e : Bytes) (w : World api env)
      → let r = process_dates api env key now initial dates w in
        IsAnswered key e r.1 ⊎ IsLeft e dates w r
  unfolding process_dates pure
  process_dates-IsAnswered key now initial [] e w = inr (refl, inr refl)
  process_dates-IsAnswered key now initial (date ∷ dates) e w =
      let after = process_date api env key now initial date w in
      let rest = process_dates-IsAnswered key now initial dates e after.1 in
      let round = process_date-IsRound api env key now initial date w in
      loop (λ r. IsAnswered key e r.1 ⊎ IsLeft e (date ∷ dates) w r)
        (process_date api env key now initial date) (process_dates api env key now initial dates) w
        (after_round-IsAnswered key date e dates w after
          (process_dates api env key now initial dates) round rest)
        (stopped-IsAnswered key date e dates w after round)

  -- Whatever fails, after the loop over the dates the committed sales of every date are those of
  -- before, or all the rows of the aggregation of one successful answer of Steam about the date.
  pub process_dates-whole :
      (key now : Bytes) (initial : Bool) (dates : List Bytes) (w : World api env) (e : Bytes)
      → let after = (process_dates api env key now initial dates w).1 in
        IsAnswered key e after ⊎ (sales_at api env e after ≡ sales_at api env e w)
  process_dates-whole key now initial dates w e =
      elim (process_dates-IsAnswered key now initial dates e w) [
        | inl answered ↦ inl answered
        | inr (same, rest) ↦ inr same
      ]

  -- If the loop over the dates ends without a failure then the committed sales of every date of
  -- the list are the rows of the aggregation of a successful answer of Steam about it.
  pub process_dates-stores :
      (key now : Bytes) (initial : Bool) (dates : List Bytes) (w : World api env) (e : Bytes)
      → (process_dates api env key now initial dates w).0 ≡ true
      → contains e dates ≡ true
      → IsAnswered key e (process_dates api env key now initial dates w).1
  process_dates-stores key now initial dates w e done listed =
      elim (process_dates-IsAnswered key now initial dates e w) [
        | inl answered ↦ answered
        | inr (same, inl failed) ↦ absurd (ground arith)
        | inr (same, inr absent) ↦ absurd (ground arith)
      ]
