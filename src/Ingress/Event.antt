-- ===== src/Ingress/Event.antt =====
-- internal/ingress/gitea/parser.go: the parsed webhook event, with the fields that the program reads
-- on the way to a task, and its normalisation after the JSON has been decoded. Absent objects are
-- `none`; numbers are natural numbers.
use matea.Base.{
  is_empty, ℕ, String, Text, codes, Bool, true, not, ◌&&◌, Option, none, some, List, [], ◌∷◌,
  str_eq, text_eq, contains, get_last?, any, if◌then◌else◌,
}

pub record User : Type 0 where
  pub login : Text

pub record Label : Type 0 where
  pub name : String

pub record Issue : Type 0 where
  pub number : ℕ
  pub title : Text
  pub body : Text
  pub state : String
  pub user : User
  pub assignee : Option User
  pub assignees : List User
  pub labels : List Label
  pub html_url : Text
  pub pull_request : Text  -- raw JSON

pub record Branch : Type 0 where
  pub ref : Text

pub record PullRequest : Type 0 where
  pub number : ℕ
  pub title : Text
  pub body : Text
  pub state : String
  pub merged : Bool
  pub draft : Bool
  pub user : User
  pub head : Branch
  pub html_url : Text
  pub requested_reviewers : List User

pub record Comment : Type 0 where
  pub body : Text
  pub user : User

pub record WebhookEvent : Type 0 where
  pub delivery_id : String
  pub event : String
  pub action : String
  pub repo : String  -- Repo.FullName
  pub issue : Option Issue
  pub pr : Option PullRequest
  pub comment : Option Comment
  pub assignee : Option User
  pub requested_reviewer : Option User
  pub sender : User

unfoldable pub is_pull_request : Issue → Bool
is_pull_request i =
    if not (is_empty i.pull_request) && not (text_eq i.pull_request (codes "null"))
    then true
    else contains i.html_url (codes "/pulls/")

abbrev pub last_assignee : WebhookEvent → Issue → Option User
last_assignee evt i = if str_eq evt.action "assigned" then get_last? i.assignees else none

-- the assignee that an event has after normalizeAssignee, from the event's own and its issue
abbrev pub chosen_assignee : WebhookEvent → Option User → Option Issue → Option User
chosen_assignee evt (some u) issue = some u
chosen_assignee evt none none = none
chosen_assignee evt none (some i) = elim i.assignee [ some u ↦ some u | none ↦ last_assignee evt i ]

unfoldable pub normalize_assignee : WebhookEvent → WebhookEvent
normalize_assignee evt = record evt { assignee = chosen_assignee evt evt.assignee evt.issue }

abbrev pub reviewers_of : Option User → List User → List User
reviewers_of reviewer (u ∷ us) = u ∷ us
reviewers_of none [] = []
reviewers_of (some u) [] = if is_empty u.login then [] else u ∷ []

abbrev pub fill_reviewers : Option User → Option PullRequest → Option PullRequest
fill_reviewers reviewer none = none
fill_reviewers reviewer (some p) =
    some (record p { requested_reviewers = reviewers_of reviewer p.requested_reviewers })

unfoldable pub normalize_requested_reviewers : WebhookEvent → WebhookEvent
normalize_requested_reviewers evt = record evt { pr = fill_reviewers evt.requested_reviewer evt.pr }

abbrev pub event_name : String → String
event_name event = if str_eq event "issue_assign" then "issues" else event

abbrev pub action_name : String → String
action_name action = if str_eq action "label_updated" then "labeled" else action

-- ParseEvent, from the decoded payload on
unfoldable pub parse_event : String → String → WebhookEvent → WebhookEvent
unfolding normalize_assignee normalize_requested_reviewers
parse_event event_type delivery_id decoded =
    let evt = record decoded { delivery_id = delivery_id; event = event_name event_type } in
    let evt' = normalize_requested_reviewers (normalize_assignee evt) in
    record evt' { action = action_name evt'.action }

unfoldable pub has_label : String → List Label → Bool
has_label name labels = any (λ (l : Label). str_eq l.name name) labels
