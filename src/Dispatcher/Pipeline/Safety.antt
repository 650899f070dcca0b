-- ===== src/Dispatcher/Pipeline/Safety.antt =====
-- No event makes a second live task of an issue (handleEventV2).
use matea.Base.{
  ℕ, String, Bool, false, Option, none, some, List, [], ◌∷◌, ◌++◌, ◌≡◌, refl, sym, ◌∙◌, arith, inl,
  inr, Bool-cases, subst,
}
use matea.Store.Types.{Agent}
use matea.Store.Tasks.{has_pending_or_running_task}
use matea.Store.Tasks.Live.{OneLive, append-OneLive}
use matea.Ingress.Event.{WebhookEvent}
use matea.Agents.Registry.{Registry}
use matea.Workflow.Resolver.{ResolveResult, is_agent_sender, resolve}
use matea.Dispatcher.State.{State, Settings, Faults, LockKey}
use matea.Dispatcher.Lifecycle.{reset_issue, reset_all, reset_keys, handle_lifecycle_event}
use matea.Dispatcher.Pipeline.{start_task, handle_event_v2, resolved, or_resolve, lock_key}
use matea.Dispatcher.Pipeline.Outcome.{Outcome, left_alone, queued, start_task_outcome}

Outcome-OneLive :
    (k : LockKey) (s : State) (x : Bool × State)
    → Outcome k s x
    → OneLive s.tasks
    → OneLive x.1.tasks
Outcome-OneLive k s x (left_alone h) v = subst OneLive (sym h.tasks) v
Outcome-OneLive k s x (queued task ok free idle locks rows of) v =
    let of_task : has_pending_or_running_task task.repo task.issue_id s.tasks ≡ false =
      rw (of.0, of.1) idle in
    let more : OneLive (record { rows = s.tasks.rows ++ task ∷ []; next_id = x.1.tasks.next_id }) =
      append-OneLive s.tasks task x.1.tasks.next_id of_task v in
    record { one = λ repo n. rw rows (more.one repo n) }

tasks-reset_issue :
    (now : ℕ) (repo : String) (n : ℕ) (s : State) → (reset_issue now repo n s).tasks ≡ s.tasks
unfolding reset_issue
tasks-reset_issue now repo n s = ground arith

tasks-reset_all :
    (now : ℕ) (repo : String) (keys : List ℕ) (s : State)
    → (reset_all now repo keys s).tasks ≡ s.tasks
tasks-reset_all now repo [] s = refl
tasks-reset_all now repo (k ∷ keys) s =
    tasks-reset_all now repo keys (reset_issue now repo k s) ∙ tasks-reset_issue now repo k s

tasks-lifecycle :
    (now : ℕ) (r : ResolveResult) (repo : String) (s : State)
    → (handle_lifecycle_event now r repo s).tasks ≡ s.tasks
unfolding handle_lifecycle_event
tasks-lifecycle now r repo s = ground arith

module _ (c : Settings) (f : Faults) (now : ℕ) (new_id task_context : String) (registry : Registry)
    (evt : WebhookEvent) where
  started-OneLive :
      (r : ResolveResult) (agent : Option Agent) (s : State)
      → r.agent ≡ agent
      → r.archives ≡ false
      → OneLive s.tasks
      → OneLive (resolved c f now new_id task_context registry evt (some r) s).1.tasks
  started-OneLive r none s e a v = subst OneLive (ground arith) v
  started-OneLive r (some agent) s e a v =
      let x : Bool × State = start_task c f now new_id task_context evt r agent s in
      let same : x.1.tasks
          ≡ (resolved c f now new_id task_context registry evt (some r) s).1.tasks =
        ground arith in
      subst OneLive same (
        Outcome-OneLive (lock_key c f now new_id task_context evt r agent) s x
          (start_task_outcome c f now new_id task_context evt r agent s) v)

  resolved-OneLive :
      (r : Option ResolveResult) (s : State)
      → OneLive s.tasks
      → OneLive (resolved c f now new_id task_context registry evt r s).1.tasks
  resolved-OneLive none s v = v
  resolved-OneLive (some r) s v = elim (Bool-cases r.archives) [
    | inl e ↦ subst OneLive (ground (arith, tasks-lifecycle now r evt.repo s)) v
    | inr e ↦ started-OneLive r r.agent s refl e v
  ]

  or_resolve-OneLive :
      (keys : List ℕ) (s : State)
      → OneLive s.tasks
      → OneLive (or_resolve c f now new_id task_context registry evt keys s).1.tasks
  or_resolve-OneLive [] s v = resolved-OneLive (resolve registry evt) s v
  or_resolve-OneLive (k ∷ keys) s v =
      subst OneLive (sym (tasks-reset_all now evt.repo (k ∷ keys) s)) v

  -- Whatever the event and whatever fails, if no issue has two tasks that are pending or running, then
  -- none has afterwards.
  pub handle_event_v2-OneLive :
      (s : State)
      → OneLive s.tasks
      → OneLive (handle_event_v2 c f now new_id task_context registry evt s).1.tasks
  unfolding handle_event_v2
  handle_event_v2-OneLive s v = elim (Bool-cases (is_agent_sender registry evt)) [
    | inl e ↦ subst OneLive (ground arith) v
    | inr e ↦ subst OneLive (ground arith) (or_resolve-OneLive (reset_keys evt) s v)
  ]
