-- ===== src/Workflow/Resolver.antt =====
-- internal/workflow/resolver.go: which agent and task a webhook event asks for. `none` is the nil
-- result: the event is ignored.
pub mod Loops
pub mod Grounded
pub mod Targets
use matea.Base.{
  is_empty, ℕ, Text, codes, String, Bool, true, false, not, ◌&&◌, ◌||◌, Option, none, some, List,
  [], ◌∷◌, ◌++◌, ltb, str_eq, if◌then◌else◌,
}
use matea.Store.Types.{Agent, Role, TaskType, role_eq}
use matea.Ingress.Event.{WebhookEvent, Issue, PullRequest, Comment, User, is_pull_request}
use matea.Agents.Registry.{Registry, get_by_gitea_username}
use matea.Workflow.TaskTypes.{
  Surface, pr, Intent, assign, review_requested, mention, slash_dev, slash_reply, resolve_task_type,
  determine_surface,
}
use matea.Workflow.Comments.{is_agent_comment, has_slash_command, mentions, extract_linked_issue}

pub record ResolveResult : Type 0 where
  pub agent : Option Agent
  pub task_type : Option TaskType  -- `none`: the empty string of a lifecycle event
  pub role : Role
  pub issue_id : ℕ
  pub pr_id : ℕ
  pub force : Bool
  pub archives : Bool  -- Lifecycle is "archive", and not ""
  pub merged : Bool

abbrev pub lifecycle_result : ℕ → ℕ → Bool → ResolveResult
lifecycle_result issue_id pr_id merged = record {
  agent = none;
  task_type = none;
  role = Role.unset;
  issue_id = issue_id;
  pr_id = pr_id;
  force = false;
  archives = true;
  merged = merged;
}

abbrev pub task_result : Agent → TaskType → Role → ℕ → ℕ → Bool → ResolveResult
task_result agent task_type role issue_id pr_id force = record {
  agent = some agent;
  task_type = some task_type;
  role = role;
  issue_id = issue_id;
  pr_id = pr_id;
  force = force;
  archives = false;
  merged = false;
}

abbrev pr_bodies : Option PullRequest → List Text
pr_bodies none = []
pr_bodies (some p) = if is_empty p.body then [] else p.body ∷ []

abbrev pub is_some {ℓ} : {A : Type ℓ} → Option A → Bool
is_some none = false
is_some (some a) = true

abbrev issue_bodies : Bool → Option Issue → List Text
issue_bodies on_pr none = []
issue_bodies on_pr (some i) =
    if not (is_empty i.body) && (on_pr || is_pull_request i) then i.body ∷ [] else []

unfoldable pub linked_issue_bodies : WebhookEvent → List Text
linked_issue_bodies evt = pr_bodies evt.pr ++ issue_bodies (is_some evt.pr) evt.issue

unfoldable pub first_linked : List Text → ℕ
first_linked [] = 0
first_linked (body ∷ bodies) =
    let rest = first_linked bodies in
    let n = extract_linked_issue body in if ltb 0 n then n else rest

unfoldable pub resolve_linked_issue : WebhookEvent → ℕ
unfolding linked_issue_bodies first_linked
resolve_linked_issue evt = first_linked (linked_issue_bodies evt)

abbrev pub issue_is_pr : Option Issue → Bool
issue_is_pr none = false
issue_is_pr (some i) = is_pull_request i

unfoldable pub is_pr_conversation : WebhookEvent → Bool
is_pr_conversation evt = is_some evt.pr || issue_is_pr evt.issue

abbrev pub issue_number_of : Option Issue → ℕ
issue_number_of none = 0
issue_number_of (some i) = i.number

abbrev pub pr_number_of : Option PullRequest → Option Issue → ℕ
pr_number_of (some p) issue = p.number
pr_number_of none issue = issue_number_of issue

-- the pair of the logical issue and the PR
unfoldable pub resolve_logic_issue_and_pr : WebhookEvent → ℕ × ℕ
unfolding is_pr_conversation resolve_linked_issue
resolve_logic_issue_and_pr evt =
    if is_pr_conversation evt
    then (resolve_linked_issue evt, pr_number_of evt.pr evt.issue)
    else (issue_number_of evt.issue, 0)

unfoldable pub is_agent_sender : Registry → WebhookEvent → Bool
is_agent_sender registry evt = is_some (get_by_gitea_username evt.sender.login registry)

-- an agent without a role counts as an analyzing one
abbrev pub role_or_analyze : Role → Role
role_or_analyze role = if role_eq role Role.unset then Role.analyze else role

abbrev assigned_agent : Registry → Option User → Option Agent
assigned_agent registry none = none
assigned_agent registry (some u) = get_by_gitea_username u.login registry

-- resolveAssigned, with the agent that the assignee is
abbrev assigned_result : WebhookEvent → Option Agent → Option ResolveResult
assigned_result evt none = none
assigned_result evt (some agent) =
    let role = role_or_analyze agent.role in
    let (issue_id, pr_id) = resolve_logic_issue_and_pr evt in
    elim (resolve_task_type role (determine_surface evt) assign evt) [
      | none ↦ none
      | some task_type ↦ some (task_result agent task_type role issue_id pr_id false)
    ]

unfoldable pub resolve_assigned : Registry → WebhookEvent → Option ResolveResult
resolve_assigned registry evt = assigned_result evt (assigned_agent registry evt.assignee)

abbrev resolve_issue_closed : WebhookEvent → Option ResolveResult
resolve_issue_closed evt = some (lifecycle_result (issue_number_of evt.issue) 0 false)

unfoldable pub resolve_issue : Registry → WebhookEvent → Option ResolveResult
unfolding resolve_assigned
resolve_issue registry evt =
    if str_eq evt.action "assigned"
    then resolve_assigned registry evt
    else if str_eq evt.action "closed"
    then resolve_issue_closed evt
    else none

-- the reviewer of the list that is a registered agent with the role review
unfoldable pub find_reviewer : Registry → List User → Option Agent
find_reviewer registry [] = none
find_reviewer registry (u ∷ us) =
    let rest = find_reviewer registry us in
    elim (get_by_gitea_username u.login registry) [
      | none ↦ rest
      | some agent ↦ if role_eq agent.role Role.review then some agent else rest
    ]

abbrev reviewer_result : WebhookEvent → PullRequest → Option Agent → Option ResolveResult
reviewer_result evt p none = none
reviewer_result evt p (some agent) = elim (resolve_task_type Role.review pr review_requested evt) [
  | none ↦ none
  | some task_type ↦
      some (task_result agent task_type Role.review (resolve_linked_issue evt) p.number false)
]

unfoldable pub resolve_pull_request :
    Registry → WebhookEvent → Option PullRequest → Option ResolveResult
unfolding find_reviewer
resolve_pull_request registry evt none = none
resolve_pull_request registry evt (some p) =
    if str_eq evt.action "review_requested" || str_eq evt.action "opened"
    then reviewer_result evt p (find_reviewer registry p.requested_reviewers)
    else if str_eq evt.action "closed"
    then some (lifecycle_result (resolve_linked_issue evt) p.number p.merged)
    else none

-- the first mentioned name that is a registered agent
unfoldable pub find_agent : Registry → List Text → Option Agent
find_agent registry [] = none
find_agent registry (name ∷ names) =
    let rest = find_agent registry names in
    elim (get_by_gitea_username name registry) [ some agent ↦ some agent | none ↦ rest ]

unfoldable pub find_mentioned_agent : Registry → Text → Option Agent
unfolding find_agent mentions
find_mentioned_agent registry body = find_agent registry (mentions body)

abbrev pub comment_intent : Bool → Bool → Intent
comment_intent true reply = slash_dev
comment_intent false true = slash_reply
comment_intent false false = mention

abbrev comment_result : WebhookEvent → Text → Option Agent → Option ResolveResult
comment_result evt body none = none
comment_result evt body (some agent) =
    let dev = has_slash_command body (codes "dev") in
    let reply = has_slash_command body (codes "reply") in
    let (issue_id, pr_id) = resolve_logic_issue_and_pr evt in
    elim (resolve_task_type (role_or_analyze agent.role) (determine_surface evt)
      (comment_intent dev reply) evt) [
        | none ↦ none
        | some task_type ↦
            let force = has_slash_command body (codes "force") && not dev && not reply in
            some (task_result agent task_type agent.role issue_id pr_id force)
      ]

unfoldable pub resolve_comment : Registry → WebhookEvent → Option Comment → Option ResolveResult
unfolding find_mentioned_agent
resolve_comment registry evt none = none
resolve_comment registry evt (some c) =
    if is_agent_comment c.body
    then none
    else comment_result evt c.body (find_mentioned_agent registry c.body)

unfoldable pub resolve : Registry → WebhookEvent → Option ResolveResult
unfolding resolve_issue resolve_pull_request resolve_comment
resolve registry evt =
    if str_eq evt.event "issues"
    then resolve_issue registry evt
    else if str_eq evt.event "pull_request"
    then resolve_pull_request registry evt evt.pr
    else if str_eq evt.event "issue_comment" || str_eq evt.event "pull_request_comment"
    then resolve_comment registry evt evt.comment
    else none
