-- ===== src/Tests/OfIngress.antt =====
-- internal/ingress/gitea.
use matea.Base.{
  String, codes, Bool, true, false, ◌||◌, Option, some, [], ◌∷◌, ◌≡◌, ◌≢◌, refl, eq_iff, arith,
}
use matea.Ingress.Event.{WebhookEvent}
use matea.Ingress.Inbox.{
  Inbox, MarkFaults, Request, accepted, serve_http, process_accepted, new_delivery, is_processed,
  try_accept,
}
use matea.Ingress.Inbox.Once.{quiet, worked, delivered_once}
use matea.Ingress.Inbox.Replay.{is_waiting, is_left, accepted_replayed}
use matea.Tests.Samples.{assigned_to}

-- every payload is one assignment
abbrev one_event : String → String → String → Option WebhookEvent
one_event event_type id body = some (assigned_to (codes "matea-coder"))

abbrev never_works : WebhookEvent → Bool
never_works evt = false

-- the delivery cannot be marked as processed
abbrev no_update : MarkFaults
no_update = record { update_fails = true; insert_fails = false }

abbrev post : Request
post = record {
  is_post = true;
  body = some "{}";
  signed = true;
  event_type = "issues";
  delivery_id = "d1";
}

abbrev one_waiting : Inbox
one_waiting = new_delivery 1 "d1" "issues" "{}" ∷ []

delivered_once_example :
    ((serve_http one_event 3 true false post
        (process_accepted one_event 2 no_update never_works "d1" "issues" "{}" one_waiting)).1
      ≡ process_accepted one_event 2 no_update never_works "d1" "issues" "{}" one_waiting)
    × ((serve_http one_event 3 true false post
          (process_accepted one_event 2 no_update never_works "d1" "issues" "{}" one_waiting)).0
        ≢ accepted)
delivered_once_example =
    delivered_once one_event never_works "d1" (λ e. ground (arith, eq_iff "d1" "")) refl
      (worked 2 no_update "d1" "issues" "{}" quiet) 3 true false post refl

accepted_replayed_example :
    (is_waiting "d1" (serve_http one_event 1 false false post []).1 ≡ true)
    × (is_waiting "d1" (
          process_accepted one_event 2 no_update never_works "d1" "issues" "{}"
            (serve_http one_event 1 false false post []).1)
        ≡ (is_left one_event never_works (one_event "issues" "d1" "{}") || true))
unfolding serve_http is_processed try_accept
accepted_replayed_example =
    accepted_replayed one_event never_works 1 2 false false no_update post [] "{}"
      (λ e. ground (arith, eq_iff "d1" "")) refl
