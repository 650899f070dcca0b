-- ===== src/Dispatcher/Lifecycle.antt =====
-- What ends the work on an issue: the command /matea reset and the lifecycle events of
-- internal/dispatcher/pipeline.go, and OnIssueClosed and OnPRClosed of internal/workflow/lifecycle.go.
pub mod Reset
use matea.Base.{
  ℕ, String, codes, Bool, false, not, ◌&&◌, Option, none, some, List, [], ◌∷◌, ltb, contains,
  if◌then◌else◌,
}
use matea.Store.Types.{Stage, WorkflowContext}
use matea.Store.Contexts.{get_workflow_context, update_workflow_context}
use matea.Ingress.Event.{WebhookEvent, Comment}
use matea.Workflow.Manager.{reverted}
use matea.Workflow.Resolver.{ResolveResult, resolve_logic_issue_and_pr, issue_number_of}
use matea.Workflow.Sessions.{archive_by_issue}
use matea.Dispatcher.Keys.{effective_issue_key}
use matea.Dispatcher.State.{State, pr_merged, emit, unlock}

abbrev pub reset_contexts : String → ℕ → State → Option WorkflowContext → State
reset_contexts repo issue_id s none = s
reset_contexts repo issue_id s (some ctx) = record s {
  contexts = update_workflow_context (reverted ctx Stage.idle) s.contexts;
}

-- resetIssue
unfoldable pub reset_issue : ℕ → String → ℕ → State → State
reset_issue now repo issue_id s =
    let s1 : State = record s { sessions = archive_by_issue now repo issue_id s.sessions } in
    let s2 = reset_contexts repo issue_id s1 (get_workflow_context repo issue_id s1.contexts) in
    record s2 { in_flight = unlock (repo, issue_id) s2.in_flight }

abbrev pub reset_all : ℕ → String → List ℕ → State → State
reset_all now repo [] s = s
reset_all now repo (k ∷ ks) s = reset_all now repo ks (reset_issue now repo k s)

abbrev asks_reset : Option Comment → Bool
asks_reset none = false
asks_reset (some c) = contains c.body (codes "/matea reset")

-- the keys that /matea reset clears; with none of them the event goes on to the resolver
abbrev pub reset_keys : WebhookEvent → List ℕ
reset_keys evt =
    let (logic_issue, pr_id) = resolve_logic_issue_and_pr evt in
    if not (asks_reset evt.comment)
    then []
    else if ltb 0 logic_issue
    then logic_issue ∷ []
    else if ltb 0 pr_id
    then effective_issue_key 0 pr_id ∷ 0 ∷ []
    else if ltb 0 (issue_number_of evt.issue)
    then issue_number_of evt.issue ∷ []
    else []

abbrev mark_done : String → ℕ → ℕ → State → Option WorkflowContext → State
mark_done repo issue_id now s none = s
mark_done repo issue_id now s (some ctx) = record s {
  contexts = update_workflow_context (record ctx { stage = Stage.done }) s.contexts;
  sessions = archive_by_issue now repo issue_id s.sessions;
}

-- SessionLifecycle.OnIssueClosed (internal/workflow/lifecycle.go)
unfoldable pub on_issue_closed : ℕ → String → ℕ → State → State
on_issue_closed now repo issue_id s =
    mark_done repo issue_id now s (get_workflow_context repo issue_id s.contexts)

-- SessionLifecycle.OnPRClosed; the workspaces that it schedules for deletion are not modelled
unfoldable pub on_pr_closed : ℕ → String → ℕ → ℕ → Bool → State → State
unfolding on_issue_closed
on_pr_closed now repo pr_id issue_id merged s =
    if merged && ltb 0 issue_id then on_issue_closed now repo issue_id s else s

unfoldable pub handle_lifecycle_event : ℕ → ResolveResult → String → State → State
unfolding on_issue_closed on_pr_closed
handle_lifecycle_event now r repo s =
    if ltb 0 r.pr_id
    then (let s' = on_pr_closed now repo r.pr_id r.issue_id r.merged s in
        if r.merged then emit (pr_merged r.pr_id r.issue_id) s' else s')
    else if ltb 0 r.issue_id
    then on_issue_closed now repo r.issue_id s
    else s
