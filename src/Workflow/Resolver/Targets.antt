-- ===== src/Workflow/Resolver/Targets.antt =====
-- What the resolver makes of a mention of an agent with no role, and of a PR conversation
-- (internal/workflow/resolver.go).
use matea.Base.{Bool, true, false, some, ◌≡◌, ◌∙◌, ap, arith, codes, not, ◌&&◌}
use matea.Store.Types.{Agent, Role, TaskType, WorkflowContext}
use matea.Ingress.Event.{WebhookEvent, Comment}
use matea.Agents.Registry.{Registry}
use matea.Workflow.Manager.{transition}
use matea.Workflow.TaskTypes.{Surface, resolve_task_type, determine_surface}
use matea.Workflow.Comments.{is_agent_comment, has_slash_command}
use matea.Workflow.Resolver.Loops.{is_comment_event, resolve-comment_event}
use matea.Workflow.Resolver.{
  ResolveResult, resolve, resolve_comment, find_mentioned_agent, comment_intent, comment_result,
  role_or_analyze, task_result, resolve_logic_issue_and_pr,
}

analyze_answers :
    (surface : Surface) (dev reply : Bool) (evt : WebhookEvent)
    → (t : TaskType) × (resolve_task_type Role.analyze surface (comment_intent dev reply) evt
        ≡ some t)
unfolding resolve_task_type
analyze_answers Surface.issue true reply evt = (TaskType.solve_comment, ground arith)
analyze_answers Surface.issue false true evt = (TaskType.reply_comment, ground arith)
analyze_answers Surface.issue false false evt = (TaskType.reply_comment, ground arith)
analyze_answers Surface.pr true reply evt = (TaskType.solve_comment, ground arith)
analyze_answers Surface.pr false true evt = (TaskType.reply_comment, ground arith)
analyze_answers Surface.pr false false evt = (TaskType.reply_comment, ground arith)

module _ (registry : Registry) (evt : WebhookEvent) (c : Comment) (agent : Agent)
    (ctx : WorkflowContext) where
  answered :
      agent.role ≡ Role.unset
      → (r : ResolveResult) × (comment_result evt c.body (some agent) ≡ some r)
        × (r.role ≡ Role.unset)
  answered unset =
      let dev = has_slash_command c.body (codes "dev") in
      let reply = has_slash_command c.body (codes "reply") in
      let (t, e) = analyze_answers (determine_surface evt) dev reply evt in
      (
        task_result agent t agent.role (resolve_logic_issue_and_pr evt).0
            (resolve_logic_issue_and_pr evt).1
            (has_slash_command c.body (codes "force") && not dev && not reply),
        ground arith,
        unset,
      )

  found_agent :
      is_agent_comment c.body ≡ false
      → find_mentioned_agent registry c.body ≡ some agent
      → resolve_comment registry evt (some c) ≡ comment_result evt c.body (some agent)
  unfolding resolve_comment
  found_agent other found = ground arith

  -- The mention of an agent with no role resolves to a task, but with no role, so that no stage of the
  -- workflow lets it start, while an assignment of the same agent counts as one to an analyzing agent.
  pub roleless_mention_blocked :
      is_comment_event evt.event ≡ true
      → evt.comment ≡ some c
      → is_agent_comment c.body ≡ false
      → find_mentioned_agent registry c.body ≡ some agent
      → agent.role ≡ Role.unset
      → (r : ResolveResult) × (resolve registry evt ≡ some r)
        × ((transition ctx r.role).allowed ≡ false)
        × (role_or_analyze agent.role ≡ Role.analyze)
  unfolding transition
  roleless_mention_blocked event comment other found unset =
      let (r, e, role) = answered unset in
      (
        r,
        resolve-comment_event registry evt event
            ∙ ap (resolve_comment registry evt) comment
            ∙ found_agent other found
            ∙ e,
        ground arith,
        ground arith,
      )
