-- ===== src/Dispatcher/Pipeline/Outcome.antt =====
-- How an event that asks for a task can end (handleEventV2 from step 3 on).
use matea.Base.{
  ℕ, String, Bool, true, false, Option, none, some, [], ◌∷◌, ◌++◌, ◌≡◌, refl, sym, subst, arith,
  inl, inr, Bool-cases, Option-cases,
}
use matea.Store.Types.{Agent, AgentSession, Task, WorkflowContext, pending}
use matea.Store.Contexts.{Contexts, get_or_create_workflow_context}
use matea.Store.Tasks.{Tasks, create_task, inserted, has_pending_or_running_task}
use matea.Ingress.Event.{WebhookEvent}
use matea.Workflow.Policy.{WorkflowPolicy}
use matea.Workflow.Manager.{transition, apply_transition}
use matea.Workflow.Resolver.{ResolveResult}
use matea.Workflow.Sessions.{get_or_create}
use matea.Dispatcher.State.{State, Settings, Faults, LockKey, Notice, is_locked, lock, unlock}
use matea.Dispatcher.Gates.{check_l1, gates_for_transition, unassign_previous_agent}
use matea.Dispatcher.Pipeline.{
  lock_key, reply_to, new_task, enqueue, with_session, locked, take_lock, with_context, start_task,
  session_branch, checked, policy_in_force, is_draft_pr,
}
use matea.Dispatcher.Pipeline.Frame.{
  SameStore, post-SameStore, unassign-SameStore, run_gates-SameStore,
}
use matea.Dispatcher.Pipeline.Locks.{unlock-lock}

-- The tasks, the channel and the locks are the same.
pub record SameQueue (s t : State) : Type 0 where
  pub tasks : t.tasks ≡ s.tasks
  pub channel : t.channel ≡ s.channel
  pub in_flight : t.in_flight ≡ s.in_flight

-- Either nothing is queued and no lock is left behind; or the lock of the issue was free and is now
-- taken, no task of the issue was live, and one pending task of the issue is new.
pub data Outcome (k : LockKey) (s : State) (r : Bool × State) : Type 0 where
  left_alone : SameQueue s r.1 → Outcome k s r
  queued :
      (task : Task)
      → r.0 ≡ true
      → is_locked k s.in_flight ≡ false
      → has_pending_or_running_task k.0 k.1 s.tasks ≡ false
      → r.1.in_flight ≡ lock k s.in_flight
      → r.1.tasks.rows ≡ s.tasks.rows ++ task ∷ []
      → (task.repo ≡ k.0)
        × (task.issue_id ≡ k.1)
        × (task.status ≡ pending)
        × (task.id ≡ s.tasks.next_id)
      → Outcome k s r

module _ (c : Settings) (f : Faults) (now : ℕ) (new_id task_context : String) (evt : WebhookEvent)
    (r : ResolveResult) (agent : Agent) where
  abbrev key : LockKey
  key = lock_key c f now new_id task_context evt r agent

  -- the state between the taking of the lock and its end
  record Under (s0 s : State) : Type 0 where
    tasks : s.tasks ≡ s0.tasks
    channel : s.channel ≡ s0.channel
    in_flight : s.in_flight ≡ lock key s0.in_flight
    was_free : is_locked key s0.in_flight ≡ false

  give_up-SameQueue :
      (s0 s : State) → Under s0 s → SameQueue s0 (record s { in_flight = unlock key s.in_flight })
  give_up-SameQueue s0 s u = record {
    tasks = u.tasks;
    channel = u.channel;
    in_flight = rw u.in_flight (unlock-lock key s0.in_flight u.was_free);
  }

  created :
      (task : Task) (t : Tasks) (task' : Task) (t' : Tasks)
      → create_task now task t ≡ some (task', t')
      → t'.rows ≡ t.rows ++ inserted t.next_id now task ∷ []
  unfolding create_task
  created task t task' t' e = ground arith

  enqueue_outcome :
      (s0 s : State) (task : Task)
      → Under s0 s
      → has_pending_or_running_task key.0 key.1 s0.tasks ≡ false
      → (task.repo ≡ key.0) × (task.issue_id ≡ key.1) × (task.status ≡ pending)
      → Outcome key s0 (enqueue c f now new_id task_context evt r agent task s)
  unfolding enqueue
  enqueue_outcome s0 s task u idle of = elim (Bool-cases f.enqueue_fails) [
    | inl e ↦ left_alone (ground (arith, unlock-lock key s0.in_flight))
    | inr e ↦ elim (Option-cases (create_task now task s.tasks)) [
      | inl n ↦ left_alone (ground (arith, unlock-lock key s0.in_flight))
      | inr ((task', t'), n) ↦
          queued (inserted s.tasks.next_id now task) (ground arith) u.was_free idle (ground arith)
            (ground (arith, created task s.tasks task' t')) (ground arith)
    ]
  ]

  -- the state in which a task is queued
  abbrev transitioned : State → WorkflowContext → Contexts → State
  transitioned s ctx t =
      unassign_previous_agent c f.unassign_fails evt.repo key.1 r.pr_id ctx.active_agent_id agent.id
        (record s { contexts = t })

  transitioned-Under :
      (s0 s : State) (ctx : WorkflowContext) (t : Contexts)
      → Under s0 s
      → Under s0 (transitioned s ctx t)
  transitioned-Under s0 s ctx t u = ground (
    arith,
    unassign-SameStore c f.unassign_fails evt.repo key.1 r.pr_id ctx.active_agent_id agent.id
        (record s { contexts = t }),
  )

  abbrev task_of : AgentSession → Task
  task_of session =
      new_task c f now new_id task_context evt r agent session.id (session_branch r.role session)

  with_session_enqueues :
      (s : State) (ctx : WorkflowContext) (session : AgentSession) (ctx' : WorkflowContext)
      (t : Contexts)
      → apply_transition ctx (transition ctx r.role) agent.id r.role session.id s.contexts
        ≡ some (ctx', t)
      → f.apply_fails ≡ false
      → with_session c f now new_id task_context evt r agent ctx session s
        ≡ enqueue c f now new_id task_context evt r agent (task_of session) (transitioned s ctx t)
  unfolding with_session
  with_session_enqueues s ctx session ctx' t applied works = ground arith

  with_session_outcome :
      (s0 s : State) (ctx : WorkflowContext) (session : AgentSession)
      → Under s0 s
      → has_pending_or_running_task key.0 key.1 s0.tasks ≡ false
      → Outcome key s0 (with_session c f now new_id task_context evt r agent ctx session s)
  unfolding with_session
  with_session_outcome s0 s ctx session u idle =
      elim (Option-cases
        (apply_transition ctx (transition ctx r.role) agent.id r.role session.id s.contexts)) [
          | inl n ↦ left_alone (ground (arith, unlock-lock key s0.in_flight))
          | inr ((ctx', t), n) ↦ elim (Bool-cases f.apply_fails) [
            | inl e ↦ left_alone (ground (arith, unlock-lock key s0.in_flight))
            | inr e ↦
                subst (Outcome key s0) (sym (with_session_enqueues s ctx session ctx' t n e)) (
                  enqueue_outcome s0 (transitioned s ctx t) (task_of session)
                    (transitioned-Under s0 s ctx t u) idle (refl, refl, refl))
          ]
        ]

  locked_outcome :
      (s0 s : State) (ctx : WorkflowContext)
      → Under s0 s
      → Outcome key s0 (locked c f now new_id task_context evt r agent ctx s)
  unfolding locked
  locked_outcome s0 s ctx u = elim (Bool-cases f.pending_fails) [
    | inl e ↦ left_alone (ground (arith, unlock-lock key s0.in_flight))
    | inr e ↦ elim (Bool-cases (has_pending_or_running_task key.0 key.1 s.tasks)) [
      | inl busy ↦ left_alone (
          ground (
            arith,
            unlock-lock key s0.in_flight,
            post-SameStore evt.repo agent (reply_to c f now new_id task_context evt r agent)
                Notice.task_pending (record s { in_flight = unlock key s.in_flight }),
          ))
      | inr idle ↦ elim (Bool-cases f.session_fails) [
        | inl e2 ↦ left_alone (ground (arith, unlock-lock key s0.in_flight))
        | inr e2 ↦
            elim (Option-cases
              (get_or_create now new_id evt.repo key.1 agent.id r.role s.sessions)) [
                | inl n ↦ left_alone (ground (arith, unlock-lock key s0.in_flight))
                | inr ((session, sessions), n) ↦
                    let s' : State = record s { sessions = sessions } in
                    let same : locked c f now new_id task_context evt r agent ctx s
                        ≡ with_session c f now new_id task_context evt r agent ctx session s' =
                      ground arith in
                    subst (Outcome key s0) (sym same)
                      (with_session_outcome s0 s' ctx session (ground arith) (ground arith))
              ]
      ]
    ]
  ]

  take_lock_outcome :
      (s : State) (ctx : WorkflowContext)
      → Outcome key s (take_lock c f now new_id task_context evt r agent ctx s)
  unfolding take_lock
  take_lock_outcome s ctx = elim (Bool-cases (is_locked key s.in_flight)) [
    | inl e ↦ left_alone (
        ground (
          arith,
          post-SameStore evt.repo agent (reply_to c f now new_id task_context evt r agent)
              Notice.lock_held s,
        ))
    | inr e ↦
        let s' : State = record s { in_flight = lock key s.in_flight } in
        let same : take_lock c f now new_id task_context evt r agent ctx s
            ≡ locked c f now new_id task_context evt r agent ctx s' =
          ground arith in
        subst (Outcome key s) (sym same) (locked_outcome s s' ctx (ground arith))
  ]

  move_outcome :
      (s s' : State) (x : Bool × State) → SameQueue s s' → Outcome key s' x → Outcome key s x
  move_outcome s s' x q (left_alone h) = left_alone (ground arith)
  move_outcome s s' x q (queued task ok free idle locks rows of) =
      queued task ok (ground arith) (ground arith) (ground arith) (ground arith) (ground arith)

  checked-SameStore :
      (policy : Option WorkflowPolicy) (ctx : WorkflowContext) (s : State)
      → SameStore s (checked c f now new_id task_context evt r agent policy ctx s).1
  checked-SameStore none ctx s = ground arith
  checked-SameStore (some policy) ctx s =
      run_gates-SameStore evt.repo agent (reply_to c f now new_id task_context evt r agent) ctx
        r.force (is_draft_pr evt.pr) policy (gates_for_transition ctx r.role) s

  with_context_outcome :
      (s : State) (ctx : WorkflowContext)
      → Outcome key s (with_context c f now new_id task_context evt r agent ctx s)
  unfolding with_context
  with_context_outcome s ctx =
      let gated : Bool × State =
        checked c f now new_id task_context evt r agent
          (policy_in_force c f now new_id task_context evt r agent) ctx s in
      let same : SameStore s gated.1 =
        checked-SameStore (policy_in_force c f now new_id task_context evt r agent) ctx s in
      elim (Bool-cases (transition ctx r.role).allowed) [
        | inr e ↦ left_alone (
            ground (
              arith,
              post-SameStore evt.repo agent (reply_to c f now new_id task_context evt r agent)
                  (Notice.transition_blocked (transition ctx r.role).reason) s,
            ))
        | inl e ↦ elim (Bool-cases gated.0) [
          | inl stopped ↦ left_alone (ground arith)
          | inr passes ↦
              let goes : with_context c f now new_id task_context evt r agent ctx s
                  ≡ take_lock c f now new_id task_context evt r agent ctx gated.1 =
                ground arith in
              subst (Outcome key s) (sym goes) (
                move_outcome s gated.1
                  (take_lock c f now new_id task_context evt r agent ctx gated.1) (ground arith)
                  (take_lock_outcome gated.1 ctx))
        ]
      ]

  -- An event for a registered agent ends in one of two ways, whatever fails on the way: the tasks, the
  -- channel and the locks are as before, or one new task of the issue is pending and its lock is held,
  -- and before it the lock was free and no task of the issue was pending or running.
  pub start_task_outcome :
      (s : State) → Outcome key s (start_task c f now new_id task_context evt r agent s)
  unfolding start_task
  start_task_outcome s = elim (Option-cases (check_l1 evt r.role s.contexts)) [
    | inr (code, e) ↦ left_alone (
        ground (
          arith,
          post-SameStore evt.repo agent (reply_to c f now new_id task_context evt r agent)
              (Notice.l1_rejected code) s,
        ))
    | inl e ↦ elim (Bool-cases f.context_fails) [
      | inl fails ↦ left_alone (ground arith)
      | inr works ↦
          let got : WorkflowContext × Contexts =
            get_or_create_workflow_context evt.repo key.1 s.contexts in
          let s' : State = record s { contexts = got.1 } in
          let goes : start_task c f now new_id task_context evt r agent s
              ≡ with_context c f now new_id task_context evt r agent got.0 s' =
            ground arith in
          subst (Outcome key s) (sym goes) (
            move_outcome s s' (with_context c f now new_id task_context evt r agent got.0 s')
              (ground arith) (with_context_outcome s' got.0))
    ]
  ]
