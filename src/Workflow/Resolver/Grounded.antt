-- ===== src/Workflow/Resolver/Grounded.antt =====
-- For whom the resolver makes a task (internal/workflow/resolver.go).
use matea.Base.{
  Text, true, false, Option, none, some, List, [], ◌∷◌, ◌≡◌, refl, arith, inl, inr, str_eq,
  Option-cases, Bool-cases, ◌||◌, codes,
}
use matea.Store.Types.{Agent, Role, TaskType, role_eq}
use matea.Ingress.Event.{WebhookEvent, Comment, User, PullRequest}
use matea.Agents.Registry.{Registry, get_by_gitea_username}
use matea.Workflow.TaskTypes.{resolve_task_type, determine_surface, pr, assign, review_requested}
use matea.Workflow.Comments.{is_agent_comment, mentions, has_slash_command}
use matea.Workflow.Resolver.Loops.{is_comment_event}
use matea.Workflow.Resolver.{
  ResolveResult, resolve, resolve_comment, resolve_issue, resolve_pull_request, find_agent,
  find_reviewer, find_mentioned_agent, resolve_assigned, role_or_analyze, comment_intent,
  assigned_agent, assigned_result, comment_result, reviewer_result,
}

-- A result is for a lifecycle event and names no agent, or it has a task type and an agent that the
-- registry has under some user name.
pub data IsGrounded (registry : Registry) (r : ResolveResult) : Type 0 where
  lifecycle : r.archives ≡ true → r.agent ≡ none → r.task_type ≡ none → IsGrounded registry r
  task :
      (name : Text) (agent : Agent) (task_type : TaskType)
      → get_by_gitea_username name registry ≡ some agent
      → r.agent ≡ some agent
      → r.task_type ≡ some task_type
      → r.archives ≡ false
      → IsGrounded registry r

find_agent_registered :
    (registry : Registry) (names : List Text) (agent : Agent)
    → find_agent registry names ≡ some agent
    → (name : Text) × (get_by_gitea_username name registry ≡ some agent)
unfolding find_agent
find_agent_registered registry [] agent h = absurd (cc)
find_agent_registered registry (name ∷ names) agent h =
    elim (Option-cases (get_by_gitea_username name registry)) [
      | inl e ↦ find_agent_registered registry names agent (ground arith)
      | inr (a, e) ↦ (name, ground arith)
    ]

find_reviewer_registered :
    (registry : Registry) (us : List User) (agent : Agent)
    → find_reviewer registry us ≡ some agent
    → (name : Text) × (get_by_gitea_username name registry ≡ some agent)
unfolding find_reviewer
find_reviewer_registered registry [] agent h = absurd (cc)
find_reviewer_registered registry (u ∷ us) agent h =
    elim (Option-cases (get_by_gitea_username u.login registry)) [
      | inl e ↦ find_reviewer_registered registry us agent (ground arith)
      | inr (a, e) ↦ elim (Bool-cases (role_eq a.role Role.review)) [
        | inl is ↦ (u.login, ground arith)
        | inr no_review ↦ find_reviewer_registered registry us agent (ground arith)
      ]
    ]

module _ (registry : Registry) (evt : WebhookEvent) where
  assigned-IsGrounded :
      (agent : Option Agent) (name : Text) (r : ResolveResult)
      → get_by_gitea_username name registry ≡ agent
      → assigned_result evt agent ≡ some r
      → IsGrounded registry r
  assigned-IsGrounded none name r g h = absurd (cc)
  assigned-IsGrounded (some agent) name r g h =
      elim (Option-cases
        (resolve_task_type (role_or_analyze agent.role) (determine_surface evt) assign evt)) [
          | inl e ↦ absurd (ground arith)
          | inr (tt_, e) ↦ task name agent tt_ g (ground arith) (ground arith) (ground arith)
        ]

  assigned_user :
      (u : Option User) (r : ResolveResult)
      → assigned_result evt (assigned_agent registry u) ≡ some r
      → IsGrounded registry r
  assigned_user none r h = absurd (cc)
  assigned_user (some u) r h =
      assigned-IsGrounded (get_by_gitea_username u.login registry) u.login r refl h

  issue-IsGrounded :
      (r : ResolveResult) → resolve_issue registry evt ≡ some r → IsGrounded registry r
  unfolding resolve_issue resolve_assigned
  issue-IsGrounded r h = elim (Bool-cases (str_eq evt.action "assigned")) [
    | inl e ↦ assigned_user evt.assignee r (ground arith)
    | inr e ↦ lifecycle (ground arith) (ground arith) (ground arith)
  ]

  reviewer-IsGrounded :
      (p : PullRequest) (agent : Option Agent) (r : ResolveResult)
      → find_reviewer registry p.requested_reviewers ≡ agent
      → reviewer_result evt p agent ≡ some r
      → IsGrounded registry r
  reviewer-IsGrounded p none r g h = absurd (cc)
  reviewer-IsGrounded p (some agent) r g h =
      let (name, found) = find_reviewer_registered registry p.requested_reviewers agent g in
      elim (Option-cases (resolve_task_type Role.review pr review_requested evt)) [
        | inl e ↦ absurd (ground arith)
        | inr (tt_, e) ↦ task name agent tt_ found (ground arith) (ground arith) (ground arith)
      ]

  pull_request-IsGrounded :
      (p : Option PullRequest) (r : ResolveResult)
      → resolve_pull_request registry evt p ≡ some r
      → IsGrounded registry r
  unfolding resolve_pull_request
  pull_request-IsGrounded none r h = absurd (cc)
  pull_request-IsGrounded (some p) r h =
      elim (Bool-cases (str_eq evt.action "review_requested" || str_eq evt.action "opened")) [
        | inl e ↦
            reviewer-IsGrounded p (find_reviewer registry p.requested_reviewers) r refl
              (ground arith)
        | inr e ↦ lifecycle (ground arith) (ground arith) (ground arith)
      ]

  commented-IsGrounded :
      (body : Text) (agent : Option Agent) (r : ResolveResult)
      → find_mentioned_agent registry body ≡ agent
      → comment_result evt body agent ≡ some r
      → IsGrounded registry r
  unfolding find_mentioned_agent
  commented-IsGrounded body none r g h = absurd (cc)
  commented-IsGrounded body (some agent) r g h =
      let (name, found) = find_agent_registered registry (mentions body) agent g in
      elim (Option-cases (
        resolve_task_type (role_or_analyze agent.role) (determine_surface evt)
          (comment_intent (has_slash_command body (codes "dev"))
            (has_slash_command body (codes "reply")))
          evt)) [
            | inl e ↦ absurd (ground arith)
            | inr (tt_, e) ↦ task name agent tt_ found (ground arith) (ground arith) (ground arith)
          ]

  comment-IsGrounded :
      (c : Option Comment) (r : ResolveResult)
      → resolve_comment registry evt c ≡ some r
      → IsGrounded registry r
  unfolding resolve_comment
  comment-IsGrounded none r h = absurd (cc)
  comment-IsGrounded (some c) r h = elim (Bool-cases (is_agent_comment c.body)) [
    | inl e ↦ absurd (ground arith)
    | inr e ↦
        commented-IsGrounded c.body (find_mentioned_agent registry c.body) r refl (ground arith)
  ]

  -- A task is made only for an agent that the registry has under some user name, and every result that
  -- names no agent is of a lifecycle event.
  pub resolve-IsGrounded :
      (r : ResolveResult) → resolve registry evt ≡ some r → IsGrounded registry r
  unfolding resolve
  resolve-IsGrounded r h = elim (Bool-cases (str_eq evt.event "issues")) [
    | inl e ↦ issue-IsGrounded r (ground arith)
    | inr e ↦ elim (Bool-cases (str_eq evt.event "pull_request")) [
      | inl e2 ↦ pull_request-IsGrounded evt.pr r (ground arith)
      | inr e2 ↦ elim (Bool-cases (is_comment_event evt.event)) [
        | inl e3 ↦ comment-IsGrounded evt.comment r (ground arith)
        | inr e3 ↦ absurd (ground arith)
      ]
    ]
  ]
