-- ===== src/Ingress/Inbox.antt =====
-- The inbox of webhook deliveries: internal/ingress/gitea/dedup.go and handler.go. Whether a signature
-- is right, what a payload parses to and what the callback answers are arguments.
pub mod Once
pub mod Replay
use matea.Base.{
  ℕ, String, Bool, true, false, not, ◌||◌, Option, none, some, List, [], ◌∷◌, ◌++◌, map, leb,
  str_eq, any, select, if◌then◌else◌,
}
use matea.Ingress.Event.{WebhookEvent}

pub data DeliveryStatus : Type 0 where
  delivery_accepted delivery_processed : DeliveryStatus

abbrev pub is_accepted : DeliveryStatus → Bool
is_accepted delivery_accepted = true
is_accepted delivery_processed = false

pub record AcceptedDelivery : Type 0 where
  pub delivery_id : String
  pub event_type : String
  pub payload : String
  pub status : DeliveryStatus
  pub created_at : ℕ

-- the table processed_deliveries, in the order of insertion
abbrev pub Inbox : Type 0
Inbox = List AcceptedDelivery

abbrev pub has_id : String → AcceptedDelivery → Bool
has_id id r = str_eq r.delivery_id id

-- IsProcessed; a failed query counts as no
unfoldable pub is_processed : Bool → String → Inbox → Bool
is_processed fails id t = if str_eq id "" || fails then false else any (has_id id) t

abbrev pub new_delivery : ℕ → String → String → String → AcceptedDelivery
new_delivery now id event_type payload = record {
  delivery_id = id;
  event_type = event_type;
  payload = payload;
  status = delivery_accepted;
  created_at = now;
}

-- TryAccept: `none` is the error of the database
unfoldable pub try_accept : ℕ → Bool → String → String → String → Inbox → Option (Bool × Inbox)
try_accept now fails id event_type payload t =
    if str_eq id ""
    then some (true, t)
    else if fails
    then none
    else if any (has_id id) t
    then some (false, t)
    else some (true, t ++ new_delivery now id event_type payload ∷ [])

-- the row with the column defaults that the fallback inserts
abbrev pub bare_delivery : ℕ → String → AcceptedDelivery
bare_delivery now id = record {
  delivery_id = id;
  event_type = "";
  payload = "";
  status = delivery_processed;
  created_at = now;
}

abbrev pub insert_or_ignore : AcceptedDelivery → Inbox → Inbox
insert_or_ignore row t = if any (has_id row.delivery_id) t then t else t ++ row ∷ []

abbrev pub set_processed : String → Inbox → Inbox
set_processed id t =
    map
      (λ (r : AcceptedDelivery).
        if has_id id r then record r { status = delivery_processed } else r)
      t

-- whether the update fails and whether the fallback for it does
pub record MarkFaults : Type 0 where
  pub update_fails : Bool
  pub insert_fails : Bool

unfoldable pub mark_processed : ℕ → MarkFaults → String → Inbox → Inbox
mark_processed now faults id t =
    if str_eq id ""
    then t
    else if not faults.update_fails
    then set_processed id t
    else if faults.insert_fails
    then t
    else insert_or_ignore (bare_delivery now id) t

abbrev pub insert_by_age : AcceptedDelivery → Inbox → Inbox
insert_by_age x [] = x ∷ []
insert_by_age x (y ∷ ys) =
    let rest = insert_by_age x ys in if leb x.created_at y.created_at then x ∷ y ∷ ys else y ∷ rest

abbrev pub by_age : Inbox → Inbox
by_age [] = []
by_age (x ∷ xs) = insert_by_age x (by_age xs)

-- ListAccepted, oldest first
unfoldable pub list_accepted : Inbox → Inbox
list_accepted t = by_age (select (λ (r : AcceptedDelivery). is_accepted r.status) t)

pub data Response : Type 0 where
  method_not_allowed bad_request unauthorized server_error duplicate accepted : Response

-- `none` for a body that cannot be read; signed is true where no secret is configured
pub record Request : Type 0 where
  pub is_post : Bool
  pub body : Option String
  pub signed : Bool
  pub event_type : String
  pub delivery_id : String

module _ (parse : String → String → String → Option WebhookEvent) where
  abbrev pub answer : Inbox → Option (Bool × Inbox) → Response × Inbox
  answer t none = (server_error, t)
  answer t (some (true, t')) = (accepted, t')
  answer t (some (false, t')) = (duplicate, t')

  abbrev pub receive : ℕ → Bool → Bool → Request → Inbox → String → Response × Inbox
  receive now check_fails accept_fails r t body =
      if not r.signed
      then (unauthorized, t)
      else if str_eq r.event_type ""
      then (bad_request, t)
      else if is_processed check_fails r.delivery_id t
      then (duplicate, t)
      else elim (parse r.event_type r.delivery_id body) [
        | none ↦ (bad_request, t)
        | some evt ↦ answer t (try_accept now accept_fails r.delivery_id r.event_type body t)
      ]

  -- ServeHTTP up to its answer; processAccepted is a later step
  unfoldable pub serve_http : ℕ → Bool → Bool → Request → Inbox → Response × Inbox
  serve_http now check_fails accept_fails r t =
      if not r.is_post then (method_not_allowed, t) else elim r.body [
        | none ↦ (bad_request, t)
        | some body ↦ receive now check_fails accept_fails r t body
      ]

  unfoldable pub process_accepted :
      ℕ → MarkFaults → (WebhookEvent → Bool) → String → String → String → Inbox → Inbox
  process_accepted now faults callback id event_type body t = elim (parse event_type id body) [
    | none ↦ mark_processed now faults id t
    | some evt ↦ if callback evt then mark_processed now faults id t else t
  ]
