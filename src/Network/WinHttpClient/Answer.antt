-- ===== src/Network/WinHttpClient/Answer.antt =====
-- What `http_get` of network/WinHttpClient.cpp answers, from the opening of a connection to the end
-- of the body.
use steam_sales_tray.Network.WinHttpClient.{
  WinHttp, ReadsAtMost, Session, request_failed, read_answer, receive, send_get, keep_session,
  get_connected, http_get, no_result, request_headers,
}
use steam_sales_tray.Network.WinHttpClient.Body.{IsDelivered, IsRefused, read_body-reads}
use steam_sales_tray.Shared.{
  ℕ, suc, ◌≤◌, ◌≡◌, refl, sym, ap, subst, ◌∙◌, ◌⊎◌, inl, inr, Bool, true, false, Option, none, some,
  length, arith, Bool-cases, Option-cases,
}
use steam_sales_tray.Shared.Bytes.{Wide}
use steam_sales_tray.Steam.Client.{HttpResult}

module _ (api : WinHttp) where
  open api use {Sys, Handle}

  -- An answer of the server: the status of a request, and what was delivered after it.
  abbrev pub IsAnswer : HttpResult → Sys → Type 0
  IsAnswer r s' =
      (request : Handle) × (s0 : Sys) × (s1 : Sys) × (status : ℕ) × (api.query_status request s0
        ≡ (some status, s1))
      × IsDelivered api request s1 r.body s'
      × (r ≡ record no_result { transport_ok = true; status_code = status; body = r.body })

  abbrev pub IsGet : ℕ → Option (HttpResult × Sys) → Type 0
  IsGet max_bytes x =
      (r : HttpResult) × (s : Sys) × (x ≡ some (r, s))
      × (length r.body ≤ max_bytes)
      × ((IsRefused r) ⊎ IsAnswer r s)

  IsGet-failed : (max_bytes : ℕ) (s : Sys) → IsGet max_bytes (some (request_failed api s, s))
  unfolding request_failed
  IsGet-failed max_bytes s = (_, s, refl, omega arith, inl (refl, inl refl))

  read_answer-IsGet :
      (request : Handle) (max_bytes : ℕ) (s : Sys) (x : Option ℕ × Sys)
      → ReadsAtMost api
      → api.query_status request s ≡ x
      → IsGet max_bytes (read_answer api (suc max_bytes) request max_bytes x)
  unfolding read_answer
  read_answer-IsGet request max_bytes s (none, s1) law e = IsGet-failed max_bytes s1
  read_answer-IsGet request max_bytes s (some status, s1) law e =
      let (r, s2, runs, fits, reading) =
        read_body-reads api (suc max_bytes) request max_bytes _ s1 law (omega arith)
          (omega arith) in
      (
        r,
        s2,
        runs,
        fits,
        elim reading [
          | inl refused ↦ inl refused
          | inr (b, d, same) ↦
              let whole : r.body ≡ b = ap (λ x. x.body) same in
              inr (
                request,
                s,
                s1,
                status,
                e,
                subst (λ x. IsDelivered api request s1 x s2) (sym whole) d,
                same
                    ∙ ap
                        (λ x. record no_result {
                          transport_ok = true;
                          status_code = status;
                          body = x;
                        })
                        (sym whole),
              )
        ],
      )

  send_get-IsGet :
      (max_bytes : ℕ) (x : Option Handle × Sys)
      → ReadsAtMost api
      → IsGet max_bytes (send_get api (suc max_bytes) max_bytes x)
  unfolding send_get receive
  send_get-IsGet max_bytes (none, s) law = IsGet-failed max_bytes s
  send_get-IsGet max_bytes (some request, s) law =
      let (sent, s1) = api.send_request request request_headers s in
      let (received, s2) = api.receive_response request s1 in
      elim (Bool-cases sent) [
        | inl e1 ↦ rw e1 (elim (Bool-cases received) [
          | inl e2 ↦ rw e2 (read_answer-IsGet request max_bytes s2 _ law refl)
          | inr e2 ↦ rw e2 (IsGet-failed max_bytes s2)
        ])
        | inr e1 ↦ rw e1 (IsGet-failed max_bytes s1)
      ]

  -- what Get answers, on every path
  abbrev pub IsAnswered : ℕ → Option (HttpResult × Session api) → Type 0
  IsAnswered max_bytes x =
      (r : HttpResult) × (c : Session api) × (x ≡ some (r, c))
      × (length r.body ≤ max_bytes)
      × ((IsRefused r) ⊎ IsAnswer r c.sys)

  keep_session-IsAnswered :
      (max_bytes : ℕ) (c : Session api) (x : Option (HttpResult × Sys))
      → IsGet max_bytes x
      → IsAnswered max_bytes (keep_session api c x)
  unfolding keep_session
  keep_session-IsAnswered max_bytes c x (r, s, e, fits, answer) =
      (r, record c { sys = s }, ap (keep_session api c) e, fits, answer)

  get_connected-IsAnswered :
      (target : Wide) (max_bytes : ℕ) (x : Bool × Session api)
      → ReadsAtMost api
      → IsAnswered max_bytes (get_connected api target max_bytes x)
  unfolding get_connected request_failed
  get_connected-IsAnswered target max_bytes (false, c) law =
      (_, c, refl, omega arith, inl (refl, inl refl))
  get_connected-IsAnswered target max_bytes (true, c) law = elim (Option-cases c.connection) [
    | inl e ↦ rw e (_, _, refl, omega arith, inl (refl, inl refl))
    | inr (h, e) ↦ rw e (keep_session-IsAnswered max_bytes c _ (send_get-IsGet max_bytes _ law))
  ]

  -- Get of WinHttpClient ends on every system whose ReadData gives no more bytes than were asked for,
  -- with a body of at most `max_bytes` bytes. Either the result has no body, and the transport failed
  -- or the body exceeded the limit; or it is the server's answer: its status is that of the request,
  -- and its body all that was delivered after it, with no piece lost.
  pub http_get-answers :
      (host : Wide) (port : ℕ) (path query : Wide) (max_bytes : ℕ) (c : Session api)
      → ReadsAtMost api
      → IsAnswered max_bytes (http_get api host port path query max_bytes c)
  unfolding http_get
  http_get-answers host port path query max_bytes c law = elim (Option-cases c.session) [
    | inl e ↦ rw e (_, _, refl, omega arith, inl (refl, inl refl))
    | inr (session, e) ↦ rw e (get_connected-IsAnswered _ max_bytes _ law)
  ]
