-- ===== src/Dispatcher/Pipeline.antt =====
-- handleEventV2 of internal/dispatcher/pipeline.go. The Boolean of the result is the method's: false
-- asks for the delivery to be replayed. `now`, the id of a new session and the prompt context of the
-- task (buildTaskContext) are arguments. All components are configured but, possibly, the policy.
pub mod Frame
pub mod Locks
pub mod Outcome
pub mod Safety
pub mod Force
use matea.Base.{
  is_empty, trim_space, ℕ, String, Text, codes, Bool, true, false, not, ◌&&◌, ◌||◌, Option, none,
  some, List, [], ◌∷◌, ◌++◌, ◌==◌, ltb, str_eq, contains, length, if◌then◌else◌,
}
use matea.Store.Types.{
  Agent, AgentSession, Role, Stage, Task, TaskType, WorkflowContext, pending, role_eq,
}
use matea.Store.Contexts.{
  get_workflow_context, get_or_create_workflow_context, update_workflow_context,
}
use matea.Store.Tasks.{Tasks, create_task, has_pending_or_running_task}
use matea.Ingress.Event.{WebhookEvent, PullRequest, Comment}
use matea.Agents.Registry.{Registry}
use matea.Workflow.Manager.{TransitionResult, transition, apply_transition, reverted}
use matea.Workflow.Policy.{
  WorkflowPolicy, GateId, Verdict, warned, GateEvaluateResult, evaluate_gate,
}
use matea.Workflow.Resolver.{
  ResolveResult, resolve, resolve_logic_issue_and_pr, is_agent_sender, issue_number_of,
}
use matea.Workflow.Sessions.{get_or_create, archive_by_issue}
use matea.Dispatcher.Lifecycle.{reset_all, reset_keys, handle_lifecycle_event}
use matea.Dispatcher.Queue.{offer}
use matea.Dispatcher.Keys.{effective_issue_key, conversation_target, writeback_target_id}
use matea.Dispatcher.State.{
  State, Settings, Faults, LockKey, Notice, l1_rejected, transition_blocked, gate_notice,
  gate_skipped, lock_held, task_pending, status_card, pr_merged, emit, is_locked, lock, unlock,
}
use matea.Dispatcher.Gates.{
  check_l1, get_effective_policy, gates_for_transition, post_gate_comment, unassign_previous_agent,
}

abbrev is_warned : Verdict → Bool
is_warned warned = true
is_warned _ = false

module _ (repo : String) (agent : Agent) (reply_to : ℕ) (ctx : WorkflowContext)
    (force is_draft : Bool) where
  abbrev pub verdict_of : WorkflowPolicy → GateId → GateEvaluateResult
  verdict_of policy gate = evaluate_gate (some policy) gate ctx agent.id is_draft

  -- whether the loop goes on behind the gate
  abbrev pub goes_on : GateEvaluateResult → Bool
  goes_on g = g.allowed || (force && is_warned g.level)

  -- what the loop posts about the gate
  unfoldable pub after_gate : WorkflowPolicy → GateId → GateEvaluateResult → State → State
  unfolding post_gate_comment
  after_gate policy gate g s =
      if g.allowed
      then (if is_warned g.level && policy.notify.on_gate_soft
          then post_gate_comment repo agent reply_to (gate_notice g.code g.level) s
          else s)
      else if force && is_warned g.level
      then post_gate_comment repo agent reply_to (gate_skipped gate) s
      else post_gate_comment repo agent reply_to (gate_notice gate g.level) s

  -- The loop over the gates: whether one of them stops the task, and what was posted.
  unfoldable pub run_gates : WorkflowPolicy → List GateId → State → Bool × State
  unfolding after_gate
  run_gates policy [] s = (false, s)
  run_gates policy (gate ∷ gates) s =
      let g = verdict_of policy gate in
      let s' = after_gate policy gate g s in
      let rest = run_gates policy gates s' in if goes_on g then rest else (true, s')

abbrev head_ref : Option PullRequest → Text
head_ref none = []
head_ref (some p) = trim_space p.head.ref

-- the branch of a session that a coder continues
abbrev pub session_branch : Role → AgentSession → Text
session_branch role session = if role_eq role Role.coder then codes session.branch else []

abbrev pub type_or_empty : Option TaskType → TaskType
type_or_empty none = TaskType.other ""
type_or_empty (some t) = t

abbrev post_status_card : Task → Option ℕ → State → State
post_status_card task none s = s
post_status_card task (some target) s = emit (status_card task.id target) s

abbrev pub is_draft_pr : Option PullRequest → Bool
is_draft_pr none = false
is_draft_pr (some p) = p.draft

module _ (c : Settings) (f : Faults) (now : ℕ) (new_id task_context : String) (evt : WebhookEvent)
    (r : ResolveResult) (agent : Agent) where
  -- the effective key, which keys storage and the lock
  abbrev pub issue_key : ℕ
  issue_key = effective_issue_key r.issue_id r.pr_id

  abbrev pub lock_key : LockKey
  lock_key = (evt.repo, issue_key)

  abbrev pub reply_to : ℕ
  reply_to = conversation_target issue_key r.pr_id

  abbrev post : Notice → State → State
  post notice s = post_gate_comment evt.repo agent reply_to notice s

  abbrev give_up : State → Bool × State
  give_up s = (false, record s { in_flight = unlock lock_key s.in_flight })

  abbrev pub new_task : String → Text → Task
  new_task session_id branch = record {
    id = 0;
    event = evt.event;
    repo = evt.repo;
    issue_id = issue_key;
    pr_id = r.pr_id;
    agent_id = agent.id;
    task_type = type_or_empty r.task_type;
    context = task_context;
    status = pending;
    priority = 10;
    delivery_id = evt.delivery_id;
    base_branch = let ref = head_ref evt.pr in if is_empty ref then branch else ref;
    session_id = session_id;
    role = r.role;
    created_at = now;
    started_at = none;
    finished_at = none;
    result = "";
    error = "";
    status_comment_id = 0;
  }

  abbrev queued : Option (Task × Tasks) → State → Bool × State
  queued none s = give_up s
  queued (some (task, tasks)) s =
      let s' : State = record s { tasks = tasks; channel = offer c.queue_size task s.channel } in
      (true, post_status_card task (writeback_target_id task) s')

  -- step 7
  unfoldable pub enqueue : Task → State → Bool × State
  enqueue task s = if f.enqueue_fails then give_up s else queued (create_task now task s.tasks) s

  -- the rest of step 6b and 6c, from the session on
  unfoldable pub with_session : WorkflowContext → AgentSession → State → Bool × State
  with_session ctx session s =
      elim (apply_transition ctx (transition ctx r.role) agent.id r.role session.id s.contexts) [
        | none ↦ give_up s
        | some (ctx', contexts) ↦
            if f.apply_fails
            then give_up s
            else enqueue (new_task session.id (session_branch r.role session)) (
                unassign_previous_agent c f.unassign_fails evt.repo issue_key r.pr_id
                  ctx.active_agent_id agent.id (record s { contexts = contexts }))
      ]

  -- steps 6 and 6b, under the lock
  unfoldable pub locked : WorkflowContext → State → Bool × State
  locked ctx s =
      if f.pending_fails
      then give_up s
      else if has_pending_or_running_task evt.repo issue_key s.tasks
      then (true, post task_pending (give_up s).1)
      else if f.session_fails
      then give_up s
      else elim (get_or_create now new_id evt.repo issue_key agent.id r.role s.sessions) [
        | none ↦ give_up s
        | some (session, sessions) ↦ with_session ctx session (record s { sessions = sessions })
      ]

  -- step 5
  unfoldable pub take_lock : WorkflowContext → State → Bool × State
  take_lock ctx s =
      if is_locked lock_key s.in_flight
      then (true, post lock_held s)
      else locked ctx (record s { in_flight = lock lock_key s.in_flight })

  abbrev pub checked : Option WorkflowPolicy → WorkflowContext → State → Bool × State
  checked none ctx s = (false, s)
  checked (some policy) ctx s =
      run_gates evt.repo agent reply_to ctx r.force (is_draft_pr evt.pr) policy
        (gates_for_transition ctx r.role) s

  -- the gates are looked at only if there is a global policy
  abbrev pub policy_in_force : Option WorkflowPolicy
  policy_in_force = elim c.policy [ none ↦ none | some policy ↦ get_effective_policy c evt.repo ]

  -- step 4, with the context that was read or created
  unfoldable pub with_context : WorkflowContext → State → Bool × State
  with_context ctx s =
      let tr = transition ctx r.role in
      if not tr.allowed
      then (true, post (transition_blocked tr.reason) s)
      else let (stopped, s') = checked policy_in_force ctx s in
        if stopped then (true, s') else take_lock ctx s'

  -- steps 3 and 4
  unfoldable pub start_task : State → Bool × State
  start_task s = elim (check_l1 evt r.role s.contexts) [
    | some code ↦ (true, post (l1_rejected code) s)
    | none ↦
        if f.context_fails
        then (false, s)
        else let (ctx, contexts) = get_or_create_workflow_context evt.repo issue_key s.contexts in
          with_context ctx (record s { contexts = contexts })
  ]

module _ (c : Settings) (f : Faults) (now : ℕ) (new_id task_context : String) (registry : Registry)
    (evt : WebhookEvent) where
  abbrev pub resolved : Option ResolveResult → State → Bool × State
  resolved none s = (true, s)
  resolved (some r) s =
      if r.archives then (true, handle_lifecycle_event now r evt.repo s) else elim r.agent [
        | none ↦ (true, s)
        | some agent ↦ start_task c f now new_id task_context evt r agent s
      ]

  abbrev pub or_resolve : List ℕ → State → Bool × State
  or_resolve [] s = resolved (resolve registry evt) s
  or_resolve (k ∷ ks) s = (true, reset_all now evt.repo (k ∷ ks) s)

  unfoldable pub handle_event_v2 : State → Bool × State
  handle_event_v2 s =
      if is_agent_sender registry evt then (true, s) else or_resolve (reset_keys evt) s
