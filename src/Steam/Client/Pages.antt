-- ===== src/Steam/Client/Pages.antt =====
-- What `GetAllDetailedSalesForDate` collects: the pages along the cursor, from "0" on.
use steam_sales_tray.Shared.{
  ℕ, zero, suc, ◌≡◌, refl, ◌∙◌, sym, ◌⊎◌, inl, inr, true, false, List, [], ◌∷◌, ◌++◌, arith,
  Bool-cases,
}
use mathlib.Core.List.{append-nil, append_assoc}
use steam_sales_tray.Shared.Bytes.{Bytes, codes}
use steam_sales_tray.Steam.Models.{DetailedSalesRecord, DetailedSalesPage}
use steam_sales_tray.Steam.Json.{Yyjson}
use steam_sales_tray.Steam.Client.{
  Transport, is_ok, get_detailed_sales, is_last, fetch_pages, max_pages_per_date,
  get_all_detailed_sales_for_date,
}

abbrev pub records_of : List DetailedSalesPage → List DetailedSalesRecord
records_of [] = []
records_of (page ∷ pages) = page.records ++ records_of pages

module _ (y : Yyjson) (t : Transport) (key date : Bytes) where
  open t use {Net}

  -- The pages answer requests that follow the cursor, all of them successfully; the last one has no
  -- cursor or the cursor that it was asked for, or else the limit on the pages is reached.
  abbrev pub IsTrace : ℕ → Bytes → Net → List DetailedSalesPage → Net → Type 0
  IsTrace zero requested net pages end = (pages ≡ []) × (net ≡ end)
  IsTrace (suc left) requested net [] end = ⊥
  IsTrace (suc left) requested net (page ∷ pages) end =
      let reply = get_detailed_sales y t key date requested net in
      (is_ok reply.0 ≡ true)
      × (reply.1 ≡ page)
      × (((is_last page requested ≡ true) × (pages ≡ []) × (reply.2 ≡ end))
          ⊎ ((is_last page requested ≡ false) × IsTrace left page.max_id reply.2 pages end))

  fetch_pages-IsTrace :
      (left : ℕ) (requested : Bytes) (out : List DetailedSalesRecord) (net : Net)
      → let result = fetch_pages y t left key date requested out net in
        is_ok result.0 ≡ true
        → (pages : List DetailedSalesPage) × IsTrace left requested net pages result.2
          × (result.1 ≡ out ++ records_of pages)
  unfolding fetch_pages
  fetch_pages-IsTrace zero requested out net h = ([], (refl, refl), sym (append-nil out))
  fetch_pages-IsTrace (suc left) requested out net h =
      let reply = get_detailed_sales y t key date requested net in
      let page = reply.1 in
      elim (Bool-cases (is_ok reply.0)) [
        | inr failed ↦ absurd (ground arith)
        | inl worked ↦ elim (Bool-cases (is_last page requested)) [
          | inl last ↦
              rw (worked, last)
                (page ∷ [], (worked, refl, inl (last, refl, refl)), rw append-nil refl)
          | inr more ↦
              let (pages, trace, e) =
                fetch_pages-IsTrace left page.max_id (out ++ page.records) reply.2
                  (rw (worked, more) at h) in
              rw (worked, more)
                (
                  page ∷ pages,
                  (worked, refl, inr (more, trace)),
                  e ∙ append_assoc out page.records (records_of pages),
                )
        ]
      ]

  -- If `GetAllDetailedSalesForDate` succeeds then its records are those of the pages along the
  -- cursor from "0", each answered successfully, in order; the cursor ends at the last page unless
  -- 10,000 pages were fetched.
  pub all_pages :
      (net : Net)
      → is_ok (get_all_detailed_sales_for_date y t key date net).0 ≡ true
      → let result = get_all_detailed_sales_for_date y t key date net in
        (pages : List DetailedSalesPage) × IsTrace max_pages_per_date (codes "0") net pages result.2
        × (result.1 ≡ records_of pages)
  unfolding get_all_detailed_sales_for_date
  all_pages net h = fetch_pages-IsTrace max_pages_per_date (codes "0") [] net h
