-- ===== src/Ingress/Inbox/Once.antt =====
-- A delivery is taken in once (internal/ingress/gitea/dedup.go and handler.go).
use matea.Base.{
  ℕ, String, Bool, true, Option, [], ◌∷◌, ◌++◌, ◌≡◌, ◌≢◌, refl, sym, ◌∙◌, arith, any, eq_iff,
  Option-cases, inl, inr,
}
use matea.Ingress.Event.{WebhookEvent}
use matea.Ingress.Inbox.{
  Inbox, AcceptedDelivery, has_id, Request, accepted, is_processed, try_accept, mark_processed,
  set_processed, bare_delivery, MarkFaults, receive, new_delivery, serve_http, process_accepted,
}

any-append :
    (p : AcceptedDelivery → Bool) (t : Inbox) (x : AcceptedDelivery)
    → any p t ≡ true
    → any p (t ++ x ∷ []) ≡ true
any-append p [] x h = absurd (cc)
any-append p (r ∷ t) x h = ground (arith, any-append p t x)

any-marked :
    (id other : String) (t : Inbox) → any (has_id other) (set_processed id t) ≡ any (has_id other) t
any-marked id other [] = refl
any-marked id other (r ∷ t) = ground (arith, any-marked id other t)

module _ (parse : String → String → String → Option WebhookEvent)
    (callback : WebhookEvent → Bool) where
  -- requests that are served and deliveries that are processed, in any order and with any faults
  pub data Runs : Inbox → Inbox → Type 0 where
    quiet : {t : Inbox} → Runs t t
    served :
        {t u : Inbox} (now : ℕ) (check_fails accept_fails : Bool) (r : Request)
        → Runs t u
        → Runs t (serve_http parse now check_fails accept_fails r u).1
    worked :
        {t u : Inbox} (now : ℕ) (faults : MarkFaults) (id event_type body : String)
        → Runs t u
        → Runs t (process_accepted parse now faults callback id event_type body u)

  receive-keeps :
      (now : ℕ) (check_fails accept_fails : Bool) (r : Request) (id : String) (t : Inbox)
      (body : String)
      → any (has_id id) t ≡ true
      → any (has_id id) (receive parse now check_fails accept_fails r t body).1 ≡ true
  unfolding try_accept
  receive-keeps now check_fails accept_fails r id t body h =
      ground (arith, any-append (has_id id) t (new_delivery now r.delivery_id r.event_type body) h)

  serve-keeps :
      (now : ℕ) (check_fails accept_fails : Bool) (r : Request) (id : String) (t : Inbox)
      → any (has_id id) t ≡ true
      → any (has_id id) (serve_http parse now check_fails accept_fails r t).1 ≡ true
  unfolding serve_http
  serve-keeps now check_fails accept_fails r id t h = elim (Option-cases r.body) [
    | inl e ↦ ground arith
    | inr (body, e) ↦ ground (arith, receive-keeps now check_fails accept_fails r id t body h)
  ]

  -- a request for a known delivery
  receive_known :
      (now : ℕ) (check_fails accept_fails : Bool) (r : Request) (t : Inbox) (body : String)
      → (r.delivery_id ≢ "")
      → any (has_id r.delivery_id) t ≡ true
      → ((receive parse now check_fails accept_fails r t body).1 ≡ t)
        × ((receive parse now check_fails accept_fails r t body).0 ≢ accepted)
  unfolding try_accept is_processed
  receive_known now check_fails accept_fails r t body ne h =
      (ground (arith, eq_iff r.delivery_id ""), ground (arith, eq_iff r.delivery_id ""))

  process-keeps :
      (now : ℕ) (faults : MarkFaults) (id event_type body other : String) (t : Inbox)
      → any (has_id other) t ≡ true
      → any (has_id other) (process_accepted parse now faults callback id event_type body t) ≡ true
  unfolding process_accepted mark_processed
  process-keeps now faults id event_type body other t h =
      ground (arith, any-marked id other t, any-append (has_id other) t (bare_delivery now id) h)

  Runs-keeps :
      (id : String) {t u : Inbox} → Runs t u → any (has_id id) t ≡ true → any (has_id id) u ≡ true
  Runs-keeps id quiet h = h
  Runs-keeps id (served {u = u} now cf af r s) h = serve-keeps now cf af r id u (Runs-keeps id s h)
  Runs-keeps id (worked {u = u} now m i e b s) h =
      process-keeps now m i e b id u (Runs-keeps id s h)

  -- Once a delivery is in the inbox, it stays known whatever is served and processed after it and
  -- whatever fails: a request with its id is not accepted again and changes nothing.
  pub delivered_once :
      (id : String) {t u : Inbox}
      → id ≢ ""
      → any (has_id id) t ≡ true
      → Runs t u
      → (now : ℕ) (check_fails accept_fails : Bool) (r : Request) → r.delivery_id ≡ id
      → ((serve_http parse now check_fails accept_fails r u).1 ≡ u)
        × ((serve_http parse now check_fails accept_fails r u).0 ≢ accepted)
  unfolding serve_http
  delivered_once id {u = u} ne h s now cf af r e =
      let known : any (has_id r.delivery_id) u ≡ true = rw e (Runs-keeps id s h) in
      let ne' : r.delivery_id ≢ "" = λ x. ne (sym e ∙ x) in
      elim (Option-cases r.body) [
        | inl b ↦ (ground arith, ground arith)
        | inr (body, b) ↦
            let x = receive_known now cf af r u body ne' known in
            (ground (arith, x.0), ground (arith, x.1))
      ]
