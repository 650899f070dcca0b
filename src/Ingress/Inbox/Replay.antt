-- ===== src/Ingress/Inbox/Replay.antt =====
-- What is replayed after a crash (internal/ingress/gitea/dedup.go and handler.go).
use matea.Base.{
  ℕ, String, Bool, true, false, not, ◌&&◌, ◌||◌, Option, none, some, [], ◌∷◌, ◌++◌, ◌≡◌, ◌≢◌, refl,
  ◌∙◌, arith, any, select, eq_iff, Option-cases, inl, inr,
}
use matea.Ingress.Event.{WebhookEvent}
use matea.Ingress.Inbox.{
  Inbox, AcceptedDelivery, has_id, is_accepted, Request, accepted, try_accept, receive,
  new_delivery, insert_by_age, by_age, mark_processed, set_processed, MarkFaults, list_accepted,
  serve_http, process_accepted,
}

any-insert_by_age :
    (p : AcceptedDelivery → Bool) (x : AcceptedDelivery) (t : Inbox)
    → any p (insert_by_age x t) ≡ (p x || any p t)
any-insert_by_age p x [] = refl
any-insert_by_age p x (y ∷ t) = ground (arith, any-insert_by_age p x t)

any-by_age : (p : AcceptedDelivery → Bool) (t : Inbox) → any p (by_age t) ≡ any p t
any-by_age p [] = refl
any-by_age p (x ∷ t) = any-insert_by_age p x (by_age t) ∙ ground (arith, any-by_age p t)

-- whether the inbox still has to process the delivery
abbrev pub is_waiting : String → Inbox → Bool
is_waiting id t = any (has_id id) (list_accepted t)

abbrev waits : String → AcceptedDelivery → Bool
waits id r = has_id id r && is_accepted r.status

is_waiting_lem : (id : String) (t : Inbox) → is_waiting id t ≡ any (waits id) t
unfolding list_accepted
is_waiting_lem id t =
    any-by_age (has_id id) (select (λ (r : AcceptedDelivery). is_accepted r.status) t) ∙ go t
  where
    go :
        (t : Inbox)
        → any (has_id id) (select (λ (r : AcceptedDelivery). is_accepted r.status) t)
          ≡ any (waits id) t
    go [] = refl
    go (r ∷ t) = ground (arith, go t)

marked_waits : (id : String) (t : Inbox) → any (waits id) (set_processed id t) ≡ false
marked_waits id [] = refl
marked_waits id (r ∷ t) = ground (arith, marked_waits id t)

-- a delivery that is waiting is known
waits_known : (id : String) (t : Inbox) → any (waits id) t ≡ true → any (has_id id) t ≡ true
waits_known id [] h = absurd (cc)
waits_known id (r ∷ t) h = ground (arith, waits_known id t)

appended_waits :
    (id : String) (t : Inbox) (x : AcceptedDelivery)
    → waits id x ≡ true
    → any (waits id) (t ++ x ∷ []) ≡ true
appended_waits id [] x h = ground arith
appended_waits id (r ∷ t) x h = ground (arith, appended_waits id t x h)

module _ (parse : String → String → String → Option WebhookEvent) where
  received_waits :
      (now : ℕ) (check_fails accept_fails : Bool) (r : Request) (t : Inbox) (body : String)
      → r.delivery_id ≢ ""
      → (receive parse now check_fails accept_fails r t body).0 ≡ accepted
      → any (waits r.delivery_id) (receive parse now check_fails accept_fails r t body).1 ≡ true
  unfolding try_accept
  received_waits now cf af r t body ne h = ground (
    arith,
    eq_iff r.delivery_id "",
    appended_waits r.delivery_id t (new_delivery now r.delivery_id r.event_type body)
        (ground (arith, eq_iff r.delivery_id r.delivery_id)),
  )

  served_waits :
      (now : ℕ) (check_fails accept_fails : Bool) (r : Request) (t : Inbox)
      → r.delivery_id ≢ ""
      → (serve_http parse now check_fails accept_fails r t).0 ≡ accepted
      → any (waits r.delivery_id) (serve_http parse now check_fails accept_fails r t).1 ≡ true
  unfolding serve_http
  served_waits now cf af r t ne h = elim (Option-cases r.body) [
    | inl e ↦ absurd (ground arith)
    | inr (b, e) ↦ ground (arith, received_waits now cf af r t b ne)
  ]

  -- the callback has not handled what the payload parses to
  abbrev pub is_left : (WebhookEvent → Bool) → Option WebhookEvent → Bool
  is_left callback none = false
  is_left callback (some evt) = not (callback evt)

  processed_waits :
      (callback : WebhookEvent → Bool) (now : ℕ) (faults : MarkFaults) (id event_type body : String)
      (t : Inbox)
      → id ≢ ""
      → any (waits id) t ≡ true
      → any (waits id) (process_accepted parse now faults callback id event_type body t)
        ≡ (is_left callback (parse event_type id body) || faults.update_fails)
  unfolding process_accepted mark_processed
  processed_waits callback now faults id event_type body t ne h =
      ground (arith, eq_iff id "", marked_waits id t, waits_known id t h)

  -- A delivery with an id that was answered as accepted is in the inbox to be replayed, even if nothing
  -- comes of it before a crash. Its processing takes it from there exactly if its payload no longer
  -- parses or the callback has handled it, and the update of its row does not fail; otherwise it is
  -- left there for a later replay, the insert that stands in for a failed update included.
  pub accepted_replayed :
      (callback : WebhookEvent → Bool) (now later : ℕ) (check_fails accept_fails : Bool)
      (faults : MarkFaults) (r : Request) (t : Inbox) (body : String)
      → r.delivery_id ≢ ""
      → (serve_http parse now check_fails accept_fails r t).0 ≡ accepted
      → (is_waiting r.delivery_id (serve_http parse now check_fails accept_fails r t).1 ≡ true)
        × (is_waiting r.delivery_id (
              process_accepted parse later faults callback r.delivery_id r.event_type body
                (serve_http parse now check_fails accept_fails r t).1)
            ≡ (is_left callback (parse r.event_type r.delivery_id body) || faults.update_fails))
  accepted_replayed callback now later cf af faults r t body ne h =
      let u : Inbox = (serve_http parse now cf af r t).1 in
      let here : any (waits r.delivery_id) u ≡ true = served_waits now cf af r t ne h in
      (
        is_waiting_lem r.delivery_id u ∙ here,
        is_waiting_lem r.delivery_id
              (process_accepted parse later faults callback r.delivery_id r.event_type body u)
            ∙ processed_waits callback later faults r.delivery_id r.event_type body u ne here,
      )
